-- ===== src/Client/Assembler.antt =====
-- weather-renderer/gui/src-tauri/src/lib.rs: the transfer of a resource in parts and their assembly.
-- Instants are nanoseconds, and delays milliseconds. Each turn of the loop is given the instants that it
-- reads and the engine's answer to its request.
pub mod Served
pub mod Parts
pub mod Whole
use weather_app.Common.{
  Bool, true, false, not, ◌&&◌, ◌||◌, List, [], ◌∷◌, ◌++◌, Option, none, some, ℕ, ◌+◌, ◌-◌, ◌*◌,
  min, max, length, if◌then◌else◌, eqb, leb, ltb, ◌==◌, bool_same, list_eq, nat_eq, u64_max, Result,
  ok, err,
}
use weather_app.Common.Text.{Text, trim, is_empty}
use weather_app.Schema.Messages.{GetResourceRequest, GetResourceResponse, TransferState}

abbrev pub resource_chunk_bytes : ℕ
resource_chunk_bytes = 512 * 1024

abbrev pub max_resource_bytes : ℕ
max_resource_bytes = 8 * 1024 * 1024

-- `RESOURCE_TRANSFER_TIMEOUT`, 60 seconds.
abbrev pub resource_transfer_timeout : ℕ
resource_transfer_timeout = 60 * 1000000000

abbrev pub default_resource_retry_ms : ℕ
default_resource_retry_ms = 75

abbrev pub min_resource_retry_ms : ℕ
min_resource_retry_ms = 10

abbrev pub max_resource_retry_ms : ℕ
max_resource_retry_ms = 1000

pub data TransferError : Type 0 where
  empty_id : TransferError
  timed_out : TransferError
  request_failed : Text → TransferError
  already_complete : TransferError
  other_resource : TransferError
  unknown_state : ℕ → TransferError
  data_while_pending : TransferError
  offset_while_pending : TransferError
  not_ready : TransferError
  too_large : ℕ → TransferError
  size_changed : TransferError
  type_changed : TransferError
  offset_overflow : TransferError
  gap : ℕ → ℕ → TransferError
  beyond_total : TransferError
  no_progress : TransferError
  wrong_completion : TransferError
  unfinished : TransferError
  wrong_length : TransferError

pub record ResourceAssembler : Type 0 where
  pub resource_id : Text
  pub total_size : Option ℕ
  pub content_type : Option Text
  pub bytes : List ℕ
  pub complete : Bool

pub data ResourceProgress : Type 0 where
  waits : ℕ → ResourceProgress
  incomplete : ResourceProgress
  all_received : ResourceProgress

abbrev pub new_assembler : Text → ResourceAssembler
new_assembler resource_id = record {
  resource_id = resource_id;
  total_size = none;
  content_type = none;
  bytes = [];
  complete = false;
}

abbrev pub assembled : ResourceAssembler → ℕ
assembled a = length a.bytes

-- The error of the first condition that holds.
abbrev pub first_error : List (Bool × TransferError) → Option TransferError
first_error [] = none
first_error ((true, e) ∷ checks) = some e
first_error ((false, e) ∷ checks) = first_error checks

abbrev pub refuse {ℓ} : {A : Type ℓ} → Option TransferError → A → Result A TransferError
refuse none a = ok a
refuse (some e) a = err e

abbrev pub size_differs : Option ℕ → ℕ → Bool
size_differs none total_size = false
size_differs (some earlier) total_size = not (eqb total_size earlier)

abbrev pub type_differs : Option Text → Text → Bool
type_differs none content_type = false
type_differs (some earlier) content_type = not (content_type == earlier)

unfoldable pub push_pending :
    ResourceAssembler
    → GetResourceResponse
    → Result (ResourceAssembler × ResourceProgress) TransferError
push_pending a response =
    refuse
      (first_error (
        (response.complete || not (is_empty response.chunk), data_while_pending)
        ∷ ((not (eqb response.next_offset (assembled a)), offset_while_pending) ∷ [])))
      (
        a,
        waits (
            if eqb response.retry_after_ms 0
            then default_resource_retry_ms
            else min (max response.retry_after_ms min_resource_retry_ms) max_resource_retry_ms),
      )

abbrev pub chunk_checks : ResourceAssembler → GetResourceResponse → List (Bool × TransferError)
chunk_checks a response =
    let expected_next = assembled a + length response.chunk in
    (ltb max_resource_bytes response.total_size, too_large response.total_size)
    ∷ ((size_differs a.total_size response.total_size, size_changed)
        ∷ ((type_differs a.content_type response.content_type, type_changed)
            ∷ ((ltb u64_max expected_next, offset_overflow)
                ∷ ((
                  not (eqb response.next_offset expected_next),
                  gap expected_next response.next_offset,
                )
                    ∷ ((ltb response.total_size expected_next, beyond_total)
                        ∷ ((not response.complete && is_empty response.chunk, no_progress)
                            ∷ ((
                              not (
                                  bool_same response.complete
                                    (eqb expected_next response.total_size)),
                              wrong_completion,
                            )
                                ∷ [])))))))

unfoldable pub push_chunk :
    ResourceAssembler
    → GetResourceResponse
    → Result (ResourceAssembler × ResourceProgress) TransferError
push_chunk a response = refuse (first_error (chunk_checks a response)) (
  record a {
    total_size = some response.total_size;
    content_type = some response.content_type;
    bytes = a.bytes ++ response.chunk;
    complete = response.complete;
  },
  if response.complete then all_received else incomplete,
)

abbrev pub push_state :
    ResourceAssembler
    → GetResourceResponse
    → TransferState
    → Result (ResourceAssembler × ResourceProgress) TransferError
push_state a response (TransferState.unknown n) = err (unknown_state n)
push_state a response TransferState.pending = push_pending a response
push_state a response TransferState.unspecified = err not_ready
push_state a response TransferState.ready = push_chunk a response

-- Where it fails, the assembler is dropped.
unfoldable pub push_response :
    ResourceAssembler
    → GetResourceResponse
    → Result (ResourceAssembler × ResourceProgress) TransferError
push_response a response =
    if a.complete
    then err already_complete
    else if not (response.resource_id == a.resource_id)
    then err other_resource
    else push_state a response response.transfer_state

abbrev pub has_size : Option ℕ → ℕ → Bool
has_size none size = false
has_size (some total_size) size = eqb total_size size

unfoldable pub finish_bytes : ResourceAssembler → Result (List ℕ) TransferError
finish_bytes a =
    refuse
      (first_error (
        (not a.complete, unfinished)
        ∷ ((not (has_size a.total_size (assembled a)), wrong_length) ∷ [])))
      a.bytes

-- A turn of the loop: the instant at its start, the engine's answer, and the instant before it sleeps.
pub record TransferRound : Type 0 where
  pub now : ℕ
  pub response : GetResourceRequest → Result GetResourceResponse Text
  pub later : ℕ

pub data TransferTurn : Type 0 where
  done : Result (List ℕ) TransferError → TransferTurn
  again : ResourceAssembler → ℕ → TransferTurn

abbrev pub next_delay : ℕ → ℕ → ℕ
next_delay pending_delay delay =
    if eqb pending_delay 0 then delay else min (max (pending_delay * 2) delay) max_resource_retry_ms

abbrev pub part_request : ResourceAssembler → GetResourceRequest
part_request a = record {
  resource_id = a.resource_id;
  offset = assembled a;
  max_bytes = resource_chunk_bytes;
}

abbrev pub after_push :
    ℕ → ℕ → ℕ → Result (ResourceAssembler × ResourceProgress) TransferError → TransferTurn
after_push deadline later pending_delay (err e) = done (err e)
after_push deadline later pending_delay (ok (a, waits delay)) =
    if eqb (deadline - later) 0
    then done (err timed_out)
    else again a (next_delay pending_delay delay)
after_push deadline later pending_delay (ok (a, incomplete)) = again a 0
after_push deadline later pending_delay (ok (a, all_received)) = done (finish_bytes a)

abbrev pub after_response :
    ℕ → ℕ → ℕ → ResourceAssembler → Result GetResourceResponse Text → TransferTurn
after_response deadline later pending_delay a (err e) = done (err (request_failed e))
after_response deadline later pending_delay a (ok response) =
    after_push deadline later pending_delay (push_response a response)

unfoldable pub transfer_turn : ℕ → TransferRound → ResourceAssembler → ℕ → TransferTurn
transfer_turn deadline round a pending_delay =
    if leb deadline round.now
    then done (err timed_out)
    else after_response deadline round.later pending_delay a (round.response (part_request a))

abbrev pub after_turn :
    TransferTurn
    → (ResourceAssembler → ℕ → Option (Result (List ℕ) TransferError))
    → Option (Result (List ℕ) TransferError)
after_turn (done r) go = some r
after_turn (again a pending_delay) go = go a pending_delay

-- `none` where the turns do not suffice.
unfoldable pub transfer_from :
    ℕ → List TransferRound → ResourceAssembler → ℕ → Option (Result (List ℕ) TransferError)
transfer_from deadline [] a pending_delay = none
transfer_from deadline (round ∷ rounds) a pending_delay =
    after_turn (transfer_turn deadline round a pending_delay)
      (λ a' delay. transfer_from deadline rounds a' delay)

unfoldable pub get_resource_bytes :
    Text → ℕ → List TransferRound → Option (Result (List ℕ) TransferError)
get_resource_bytes resource_id now rounds =
    if is_empty (trim resource_id)
    then some (err empty_id)
    else transfer_from (now + resource_transfer_timeout) rounds (new_assembler resource_id) 0
