-- ===== src/Reservation.antt =====
-- proxy/src/scheduler/reservation.rs (rows, cache, broadcaster) and the types of
-- proxy/src/api/reservation.rs. The handlers and the tick are in the child modules; the table
-- `reservations` is the list of its rows, and a time column is the text that it holds.
pub mod Requests
pub mod Admin
pub mod Tick
pub mod Cases
pub mod Rows
pub mod Overlap
pub mod Cache
pub mod Coherence
pub mod History
pub mod Steps
pub mod Booking
pub mod Access
pub mod Ticks
pub mod Tests
use Prim.Native.String.{len}
use sovereign_engine.Prelude.{
  ℕ, ◌+◌, String, Bool, true, false, ◌&&◌, ◌||◌, Option, none, some, List, [], ◌∷◌, ltb, ◌==◌,
  text_lt, if◌then◌else◌,
}
use sovereign_engine.Prelude.Table.{find_first}

-- The CHECK constraint on the column `status`.
pub data Status : Type 0 where
  pending approved active completed rejected cancelled : Status

pub record Reservation : Type 0 where
  pub id : String
  pub user_id : String
  pub status : Status
  pub start_time : String
  pub end_time : String
  pub reason : String
  pub admin_note : String
  pub approved_by : Option String
  pub created_at : String
  pub updated_at : String

-- The columns of `users` that the reservation code reads.
pub record User : Type 0 where
  pub id : String
  pub email : Option String
  pub display_name : Option String

pub record ActiveReservation : Type 0 where
  pub reservation_id : String
  pub user_id : String
  pub end_time : String
  pub user_display_name : Option String

-- `notices` counts the signals of the broadcaster.
pub record World : Type 0 where
  pub rows : List Reservation
  pub users : List User
  pub cache : Option ActiveReservation
  pub notices : ℕ

-- The statements that the code sends. A statement may fail, each on its own.
pub data Query : Type 0 where
  create_overlap create_insert list_query cancel_update : Query
  approve_status approve_times approve_overlap approve_update reject_update : Query
  activate_lookup activate_update deactivate_update delete_status delete_row : Query
  tick_complete tick_lookup tick_activate tick_cancel recover_lookup : Query

-- What a call meets: the statements that fail, and the database's `datetime('now')`.
pub record Env : Type 0 where
  pub fails : Query → Bool
  pub stamp : String

-- Status codes with the JSON that the handlers send; `too_long` is the 400 of a field that exceeds
-- its maximum length.
pub data Response : Type 0 where
  bad_request not_found conflict forbidden internal_error : String → Response
  created : String → String → Response
  status_is : String → Response
  too_long : String → ℕ → Response

abbrev pub is_pending : Status → Bool
is_pending pending = true
is_pending _ = false

abbrev pub is_approved : Status → Bool
is_approved approved = true
is_approved _ = false

abbrev pub is_active : Status → Bool
is_active active = true
is_active _ = false

-- status IN ('approved', 'active')
abbrev pub holds_slot : Status → Bool
holds_slot s = is_approved s || is_active s

-- status IN ('pending', 'approved')
abbrev pub is_cancellable : Status → Bool
is_cancellable s = is_pending s || is_approved s

abbrev pub status_text : Status → String
status_text pending = "pending"
status_text approved = "approved"
status_text active = "active"
status_text completed = "completed"
status_text rejected = "rejected"
status_text cancelled = "cancelled"

abbrev pub has_id : String → Reservation → Bool
has_id i r = r.id == i

-- status IN ('approved', 'active') AND start_time < finish AND end_time > start
abbrev pub blocks : String → String → Reservation → Bool
blocks start finish r =
    holds_slot r.status && (text_lt r.start_time finish && text_lt start r.end_time)

abbrev pub set_status : Status → String → Reservation → Reservation
set_status s stamp r = record r { status = s; updated_at = stamp }

-- ReservationBroadcaster::notify
abbrev pub notify : World → World
notify w = record w { notices = w.notices + 1 }

-- Scheduler::set_active_reservation
abbrev pub set_active_reservation : Option ActiveReservation → World → World
set_active_reservation a w = record w { cache = a }

-- The column `u.display_name` under LEFT JOIN users u ON u.id = r.user_id.
abbrev pub display_name : List User → String → Option String
display_name us uid = elim (find_first (λ (u : User). u.id == uid) us) [
  | none ↦ none
  | some u ↦ u.display_name
]

-- What the scheduler keeps of the row that it activates.
abbrev pub active_entry : List User → Reservation → ActiveReservation
active_entry us r = record {
  reservation_id = r.id;
  user_id = r.user_id;
  end_time = r.end_time;
  user_display_name = display_name us r.user_id;
}

-- error::MAX_DESCRIPTION
abbrev pub max_description : ℕ
max_description = 4096

-- error::validate_len: the length of a Rust string counts bytes.
abbrev pub validate_len : String → String → ℕ → Option Response
validate_len field value max = if ltb max (len value) then some (too_long field max) else none
