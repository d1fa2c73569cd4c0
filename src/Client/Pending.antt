-- ===== src/Client/Pending.antt =====
-- weather-renderer/common/src/client/pending.rs: the registry of requests that wait for their
-- responses. A marker, which the source compares by `Arc::ptr_eq`, is the number of the channel made
-- with it; `R` is the response and `F` the client failure.
pub mod Served
pub mod Actions
pub mod Waiters
use weather_app.Common.{
  Bool, true, false, not, ◌&&◌, List, [], ◌∷◌, Option, none, some, ℕ, suc, if◌then◌else◌, eqb, ◌==◌,
  list_eq, nat_eq, pair_eq, retain, contains, Result, ok, err,
}
use weather_app.Common.Map.{Map, get, insert, remove, modify, contains_key}
use weather_app.Common.Text.{Text}

-- A oneshot channel: what was sent, and which of its ends are still held.
pub record Channel (R F : Type 0) : Type 0 where
  pub reply : Option (Result R F)
  pub sender_held : Bool
  pub receiver_held : Bool

pub record Registry (R F : Type 0) : Type 0 where
  pub entries : Map Text ℕ
  pub terminal : Option F
  pub channels : Map ℕ (Channel R F)
  pub next_marker : ℕ

pub data RegisterError (F : Type 0) : Type 0 where
  collision : RegisterError F
  terminal_error : F → RegisterError F

-- The request id and the marker of a `PendingLease`.
abbrev pub Lease : Type 0
Lease = Text × ℕ

abbrev pub matches : Option ℕ → ℕ → Bool
matches none marker = false
matches (some found) marker = eqb found marker

-- What `receive` finds: nothing yet, a reply, or a sender that went away without one.
pub data Received (R F : Type 0) : Type 0 where
  waiting : Received R F
  replied : Result R F → Received R F
  sender_dropped : Received R F

module _ {R F : Type 0} where
  abbrev pub new_registry : Registry R F
  new_registry = record { entries = []; terminal = none; channels = []; next_marker = 0 }

  abbrev pub open_channel : Channel R F
  open_channel = record { reply = none; sender_held = true; receiver_held = true }

  -- The `Vacant` entry: the sender goes into the table and the receiver into the lease.
  unfoldable pub enter : Text → Registry R F → Registry R F
  enter id r = record r {
    entries = insert id r.next_marker r.entries;
    channels = insert r.next_marker open_channel r.channels;
    next_marker = suc r.next_marker;
  }

  unfoldable pub register : Text → Registry R F → Registry R F × Result Lease (RegisterError F)
  register id r = elim r.terminal [
    | some failure ↦ (r, err (terminal_error failure))
    | none ↦
        if contains_key id r.entries
        then (r, err collision)
        else (enter id r, ok (id, r.next_marker))
  ]

  -- `oneshot::Sender::send`: the sender is used up, and a dropped receiver refuses the value.
  unfoldable pub deliver : Result R F → Channel R F → Channel R F
  deliver value c = record c {
    reply = if c.receiver_held then some value else c.reply;
    sender_held = false;
  }

  unfoldable pub accepts : Option (Channel R F) → Bool
  accepts none = false
  accepts (some c) = c.receiver_held

  unfoldable pub send : ℕ → Result R F → Map ℕ (Channel R F) → Map ℕ (Channel R F)
  send marker value channels = modify marker (deliver value) channels

  unfoldable pub complete : Text → R → Registry R F → Registry R F × Bool
  complete id response r = elim (get id r.entries) [
    | none ↦ (r, false)
    | some marker ↦ (
      record r { entries = remove id r.entries; channels = send marker (ok response) r.channels },
      accepts (get marker r.channels),
    )
  ]

  unfoldable pub send_all : Map Text ℕ → F → Map ℕ (Channel R F) → Map ℕ (Channel R F)
  send_all [] failure channels = channels
  send_all ((id, marker) ∷ entries) failure channels =
      send_all entries failure (send marker (err failure) channels)

  unfoldable pub fail_all : F → Registry R F → Registry R F × Bool
  fail_all failure r = elim r.terminal [
    | some earlier ↦ (r, false)
    | none ↦ (
      record r {
        terminal = some failure;
        entries = [];
        channels = send_all r.entries failure r.channels;
      },
      true,
    )
  ]

  unfoldable pub drop_sender : Channel R F → Channel R F
  drop_sender c = record c { sender_held = false }

  unfoldable pub drop_receiver : Channel R F → Channel R F
  drop_receiver c = record c { receiver_held = false }

  unfoldable pub remove_if_matches : Text → ℕ → Registry R F → Registry R F
  remove_if_matches id marker r =
      if matches (get id r.entries) marker
      then record r {
        entries = remove id r.entries;
        channels = modify marker drop_sender r.channels;
      }
      else r

  -- The lease's `drop`, then that of its receiver.
  unfoldable pub drop_lease : Lease → Registry R F → Registry R F
  drop_lease (id, marker) r =
      let r' = remove_if_matches id marker r in
      record r' { channels = modify marker drop_receiver r'.channels }

  unfoldable pub found : Option (Channel R F) → Received R F
  found none = sender_dropped
  found (some c) = elim c.reply [
    | some value ↦ replied value
    | none ↦ if c.sender_held then waiting else sender_dropped
  ]

  -- `receive`, where `background` is the failure "pending response sender was dropped".
  unfoldable pub receive : F → Lease → Registry R F → Option (Result R F)
  receive background (id, marker) r = elim (found (get marker r.channels)) [
    | waiting ↦ none
    | replied value ↦ some value
    | sender_dropped ↦ some (err (elim r.terminal [ some f ↦ f | none ↦ background ]))
  ]

-- The registry with the leases that are held, and what may happen to them.
pub record World (R F : Type 0) : Type 0 where
  pub registry : Registry R F
  pub leases : List Lease

pub data Action (R F : Type 0) : Type 0 where
  registers : Text → Action R F
  completes : Text → R → Action R F
  fails : F → Action R F
  drops : Lease → Action R F

module _ {R F : Type 0} where
  unfoldable pub grant : List Lease → Registry R F × Result Lease (RegisterError F) → World R F
  grant leases (r, ok lease) = record { registry = r; leases = lease ∷ leases }
  grant leases (r, err e) = record { registry = r; leases = leases }

  unfoldable pub act : Action R F → World R F → World R F
  act (registers id) w = grant w.leases (register id w.registry)
  act (completes id response) w = record w { registry = (complete id response w.registry).0 }
  act (fails failure) w = record w { registry = (fail_all failure w.registry).0 }
  act (drops (id, marker)) w =
      if contains w.leases (id, marker)
      then record {
        registry = drop_lease (id, marker) w.registry;
        leases = retain (λ l. not (eqb l.1 marker)) w.leases;
      }
      else w

  unfoldable pub acts : List (Action R F) → World R F → World R F
  acts [] w = w
  acts (a ∷ rest) w = acts rest (act a w)
