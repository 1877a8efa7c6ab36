-- ===== src/Accounts.antt =====
-- The accounts of users: backend/src/modules/auth/auth.service.ts. bcrypt, the signing of tokens, the
-- normal form of an email (`trim().toLowerCase()`) and whether a mail goes out are parameters; a
-- salt is what `genSalt` draws.
pub mod Login
pub mod Search
use se_ticketbox.Prelude.{
  ℕ, Bool, true, false, not, Option, none, some, List, [], ◌∷◌, ◌++◌, if◌then◌else◌,
}
use se_ticketbox.Prelude.Table.{Table, find, put}
use se_ticketbox.Prelude.Text.{Text, text_eq}
use se_ticketbox.Store.{
  Role, Error, conflict, unauthorized, not_found, internal_server_error, database, Result, ok, err,
  ◌>>=◌, ◌>>◌, or_fail, guard,
}

pub record User : Type 0 where
  pub email : Text
  pub phone : Option Text
  pub password_hash : Text
  pub full_name : Option Text
  pub role : Role

abbrev pub Users : Type 0
Users = Table User

pub record Library : Type 0 where
  pub normalize : Text → Text
  pub hash : (password salt : Text) → Text
  pub compare : (password password_hash : Text) → Bool
  pub sign : ℕ → User → Text

-- `findUnique` by the email.
unfoldable pub find_email : Text → Users → Option (ℕ × User)
find_email email [] = none
find_email email ((id, u) ∷ m) = if text_eq u.email email then some (id, u) else find_email email m

-- The token and the user of an answer.
pub record AuthResponse : Type 0 where
  pub access_token : Text
  pub id : ℕ
  pub user : User

abbrev pub auth_response : Library → ℕ → User → AuthResponse
auth_response l id u = record { access_token = l.sign id u; id = id; user = u }

abbrev pub is_taken : Option (ℕ × User) → Bool
is_taken none = false
is_taken (some hit) = true

pub record RegisterDto : Type 0 where
  pub email : Text
  pub password : Text
  pub full_name : Option Text

abbrev pub new_user : Library → Text → RegisterDto → User
new_user l salt dto = record {
  email = l.normalize dto.email;
  phone = none;
  password_hash = l.hash dto.password salt;
  full_name = dto.full_name;
  role = Role.customer;
}

-- `register`; `id` is the one that the database draws.
unfoldable pub register : Library → ℕ → Text → RegisterDto → Users → Result (AuthResponse × Users)
unfolding find_email
register l id salt dto us = do
  guard (not (is_taken (find_email (l.normalize dto.email) us))) conflict
  let u = new_user l salt dto
  ok (auth_response l id u, us ++ (id, u) ∷ [])

-- The comparison of the password.
abbrev pub log_in_as : Library → Text → ℕ × User → Result AuthResponse
log_in_as l password (id, u) =
    guard (l.compare password u.password_hash) unauthorized >> ok (auth_response l id u)

-- `login`.
unfoldable pub login : Library → (email password : Text) → Users → Result AuthResponse
unfolding find_email
login l email password us =
    or_fail (find_email (l.normalize email) us) unauthorized >>= log_in_as l password

-- `getMe`.
unfoldable pub get_me : ℕ → Users → Result User
get_me id us = or_fail (find id us) unauthorized

-- The given name, or the one that is there.
abbrev pub name_or_keep : Option Text → Option Text → Option Text
name_or_keep none old = old
name_or_keep (some name) old = some name

-- `updateProfile`, where a name that is not given is left as it is, and Prisma throws if the row is
-- missing.
unfoldable pub update_profile : ℕ → Option Text → Users → Result Users
update_profile id full_name us = do
  u ← or_fail (find id us) database
  ok (put id (record u { full_name = name_or_keep full_name u.full_name }) us)

abbrev pub set_password : Library → ℕ → User → (password salt : Text) → Users → Users
set_password l id u password salt us = put id (record u { password_hash = l.hash password salt }) us

-- `changePassword`.
unfoldable pub change_password :
    Library → ℕ → Text → (current new_password : Text) → Users → Result Users
change_password l id salt current new_password us = do
  u ← or_fail (find id us) unauthorized
  guard (l.compare current u.password_hash) unauthorized
  guard (not (text_eq current new_password)) conflict
  ok (set_password l id u new_password salt us)

-- The new password is stored before the mail is sent, and stays where the mail fails.
abbrev pub reset_password :
    Library → Text → Text → Bool → Option (ℕ × User) → Users → Result (Unit {0}) × Users
reset_password l salt generated mail_sent none us = (err not_found, us)
reset_password l salt generated mail_sent (some (id, u)) us =
    (guard mail_sent internal_server_error, set_password l id u generated salt us)

-- `forgotPassword`, with the password that is generated.
unfoldable pub forgot_password :
    Library → Text → Text → Bool → Text → Users → Result (Unit {0}) × Users
unfolding find_email
forgot_password l salt generated mail_sent email us =
    reset_password l salt generated mail_sent (find_email (l.normalize email) us) us
