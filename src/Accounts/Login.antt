-- ===== src/Accounts/Login.antt =====
-- Who can log in (backend/src/modules/auth/auth.service.ts).
use se_ticketbox.Prelude.{
  ℕ, ◌≡◌, refl, Bool, true, false, Option, none, some, [], ◌∷◌, ◌++◌, arith, Option-cases, inl, inr,
}
use se_ticketbox.Prelude.Table.{find, put, Distinct}
use se_ticketbox.Prelude.Text.{Text, text_eq, text_eq_refl}
use se_ticketbox.Store.{conflict, unauthorized, internal_server_error, Result, ok, err, guard}
use se_ticketbox.Accounts.{
  User, Users, Library, find_email, AuthResponse, auth_response, RegisterDto, register, login,
  forgot_password, new_user,
}

find_email-append :
    (email : Text) (us : Users) (id : ℕ) (u : User)
    → find_email email us ≡ none
    → text_eq u.email email ≡ true
    → find_email email (us ++ (id, u) ∷ []) ≡ some (id, u)
unfolding find_email
find_email-append email [] id u h same = ground (arith, same)
find_email-append email (v ∷ us) id u h same = ground (arith, h, find_email-append email us id u)

abbrev pub LogsIn : Library → Text → RegisterDto → Result (AuthResponse × Users) → Type 0
LogsIn l email dto (err e) = e ≡ conflict
LogsIn l email dto (ok (r, us)) = login l email dto.password us ≡ ok r

-- A registration either is refused with a conflict or lets the user log in at once with the same
-- password, and every email of the same normal form, with the same answer, where bcrypt accepts a
-- password against its own hash.
pub register-LogsIn :
    (l : Library) (id : ℕ) (salt email : Text) (dto : RegisterDto) (us : Users)
    → l.compare dto.password (l.hash dto.password salt) ≡ true
    → l.normalize email ≡ l.normalize dto.email
    → LogsIn l email dto (register l id salt dto us)
unfolding register login
register-LogsIn l id salt email dto us accepts same =
    elim (Option-cases (find_email (l.normalize dto.email) us)) [
      | inl e ↦ ground (
        arith,
        e,
        accepts,
        same,
        text_eq_refl (l.normalize dto.email),
        find_email-append (l.normalize dto.email) us id (new_user l salt dto) e,
      )
      | inr (hit, e) ↦ ground (arith, e)
    ]

abbrev is_there : Option User → Bool
is_there none = false
is_there (some u) = true

find_email-there :
    (email : Text) (us : Users) (id : ℕ) (u : User)
    → find_email email us ≡ some (id, u)
    → is_there (find id us) ≡ true
unfolding find_email find
find_email-there email [] id u h = ground (arith, h)
find_email-there email ((j, w) ∷ us) id u h = ground (arith, h, find_email-there email us id u)

-- A row that is replaced under its email is found by it.
find_email-put :
    (email : Text) (us : Users) (id : ℕ) (u v : User)
    → find_email email us ≡ some (id, u)
    → Distinct us
    → v.email ≡ u.email
    → find_email email (put id v us) ≡ some (id, v)
unfolding find_email put find
find_email-put email [] id u v h d same = ground (arith, h)
find_email-put email ((j, w) ∷ us) id u v h d same =
    ground
      (arith, h, d.0, same, find_email-there email us id u, find_email-put email us id u v, d.1)

-- A forgotten password is replaced at once: the account's user logs in with the generated password,
-- and not with a password that bcrypt refuses for its hash, such as the old one, also where the mail
-- with the new password cannot be sent and the request ends with an error.
forgot_password-login :
    (l : Library) (salt generated old email : Text) (mail_sent : Bool) (us : Users) (id : ℕ)
    (u : User)
    → find_email (l.normalize email) us ≡ some (id, u)
    → Distinct us
    → l.compare generated (l.hash generated salt) ≡ true
    → l.compare old (l.hash generated salt) ≡ false
    → let (answer, us') = forgot_password l salt generated mail_sent email us in
      let v : User = record u { password_hash = l.hash generated salt } in
      (answer ≡ guard mail_sent internal_server_error)
      × (login l email generated us' ≡ ok (auth_response l id v))
      × (login l email old us' ≡ err unauthorized)
unfolding forgot_password login
forgot_password-login l salt generated old email mail_sent us id u here d accepts refuses =
    let v : User = record u { password_hash = l.hash generated salt } in
    ground (arith, here, accepts, refuses, find_email-put (l.normalize email) us id u v here d refl)
