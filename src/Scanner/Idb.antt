-- ===== src/Scanner/Idb.antt =====
-- The scanner app's database: frontend/checkin-pwa/src/lib/idb.ts. Event ids are only compared, so
-- they are numbers in the order of the ids: a store keeps its records in the order of their keys.
use se_ticketbox.Prelude.{ℕ, Bool, true, false, List, [], ◌∷◌, ltb, ◌==◌, if◌then◌else◌, length}
use se_ticketbox.Prelude.Text.{Text, text_eq}
use se_ticketbox.Checkin.Sync.{SyncRecord}

-- `OfflineScanRecord`.
pub record OfflineScan : Type 0 where
  pub scan : SyncRecord
  pub synced : Bool

-- `saveCheckinLog`: `put` by the key `offlineEventId`.
unfoldable pub save_checkin_log : OfflineScan → List OfflineScan → List OfflineScan
save_checkin_log r [] = r ∷ []
save_checkin_log r (s ∷ ss) =
    if s.scan.offline_event_id == r.scan.offline_event_id
    then r ∷ ss
    else if ltb r.scan.offline_event_id s.scan.offline_event_id
    then r ∷ s ∷ ss
    else s ∷ save_checkin_log r ss

-- `getUnsynced`.
unfoldable pub get_unsynced : List OfflineScan → List SyncRecord
get_unsynced [] = []
get_unsynced (s ∷ ss) = if s.synced then get_unsynced ss else s.scan ∷ get_unsynced ss

-- One round of the loop of `markSynced`. A key stands at one record at most.
unfoldable pub mark_one : ℕ → List OfflineScan → List OfflineScan
mark_one id [] = []
mark_one id (s ∷ ss) =
    (if s.scan.offline_event_id == id then (record s { synced = true }) else s) ∷ mark_one id ss

-- `markSynced`.
unfoldable pub mark_synced : List ℕ → List OfflineScan → List OfflineScan
unfolding mark_one
mark_synced [] ss = ss
mark_synced (id ∷ ids) ss = mark_synced ids (mark_one id ss)

-- `countUnsynced`.
unfoldable pub count_unsynced : List OfflineScan → ℕ
unfolding get_unsynced
count_unsynced ss = length (get_unsynced ss)

-- `clearSynced`.
unfoldable pub clear_synced : List OfflineScan → List OfflineScan
clear_synced [] = []
clear_synced (s ∷ ss) = if s.synced then clear_synced ss else s ∷ clear_synced ss

-- `hasTicketBeenScanned`.
unfoldable pub has_ticket_been_scanned : Text → List Text → Bool
has_ticket_been_scanned id [] = false
has_ticket_been_scanned id (t ∷ ts) = if text_eq t id then true else has_ticket_been_scanned id ts

-- `markTicketScanned`: `put` by the key `ticketId`. The order of this store is never read.
unfoldable pub mark_ticket_scanned : Text → List Text → List Text
mark_ticket_scanned id [] = id ∷ []
mark_ticket_scanned id (t ∷ ts) = if text_eq t id then t ∷ ts else t ∷ mark_ticket_scanned id ts

-- `clearScannedTicket`.
unfoldable pub clear_scanned_ticket : Text → List Text → List Text
clear_scanned_ticket id [] = []
clear_scanned_ticket id (t ∷ ts) = if text_eq t id then ts else t ∷ clear_scanned_ticket id ts

-- `clearAllScannedTickets`.
unfoldable pub clear_all_scanned_tickets : List Text → List Text
clear_all_scanned_tickets ts = []
