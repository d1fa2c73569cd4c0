-- ===== src/Engine/Transfer.antt =====
-- weather-core/engine/src/handlers/resource.rs: the request for a part of a resource. A `usize` has 64
-- bits, as a `u64` has, so that no conversion between them fails.
use weather_app.Common.{
  true, false, List, [], Option, none, some, ℕ, ◌-◌, ◌*◌, min, take, drop, length, if◌then◌else◌,
  eqb, ltb, saturating_add, Result, ok, err,
}
use weather_app.Common.Text.{Text, trim, is_empty}
use weather_app.Schema.Messages.{GetResourceRequest, GetResourceResponse, TransferState}
use weather_app.Engine.ResourceCache.{ResourceState, FetchPlan, begin_fetch}

abbrev pub default_resource_chunk_bytes : ℕ
default_resource_chunk_bytes = 256 * 1024

abbrev pub max_resource_chunk_bytes : ℕ
max_resource_chunk_bytes = 512 * 1024

abbrev pub async_resource_retry_after_ms : ℕ
async_resource_retry_after_ms = 75

pub data ResourceError : Type 0 where
  undecodable : Text → ResourceError
  empty_resource_id : ResourceError
  exceeds_max_bytes : ℕ → ResourceError
  exceeds_total_size : ℕ → ℕ → ResourceError
  not_available : Text → ResourceError
  not_registered : Text → ResourceError

-- The answer with its status: OK, ACCEPTED, BAD_REQUEST and RESOURCE.
pub data ResourceAnswer : Type 0 where
  answer_ok : GetResourceResponse → ResourceAnswer
  answer_accepted : GetResourceResponse → ResourceAnswer
  answer_bad_request : ResourceError → ResourceAnswer
  answer_resource : ResourceError → ResourceAnswer

unfoldable pub resource_chunk :
    GetResourceRequest → Text → List ℕ → ℕ → Result GetResourceResponse ResourceError
resource_chunk request content_type bytes max_bytes =
    let total_size = length bytes in
    let start = request.offset in
    let end = min (saturating_add start max_bytes) total_size in
    if ltb total_size request.offset
    then err (exceeds_total_size request.offset total_size)
    else ok (record {
      resource_id = request.resource_id;
      content_type = content_type;
      chunk = take (end - start) (drop start bytes);
      total_size = total_size;
      next_offset = end;
      complete = eqb end total_size;
      cache_hit = false;
      transfer_state = TransferState.ready;
      retry_after_ms = 0;
    })

unfoldable pub pending_resource_response : GetResourceRequest → ℕ → GetResourceResponse
pending_resource_response request retry_after_ms = record {
  resource_id = request.resource_id;
  content_type = [];
  chunk = [];
  total_size = 0;
  next_offset = request.offset;
  complete = false;
  cache_hit = false;
  transfer_state = TransferState.pending;
  retry_after_ms = retry_after_ms;
}

abbrev pub chunk_answer : Result GetResourceResponse ResourceError → ResourceAnswer
chunk_answer (ok response) = answer_ok (record response { cache_hit = true })
chunk_answer (err message) = answer_bad_request message

-- The answer, and the address of a fetch that is spawned.
unfoldable pub answer_plan : GetResourceRequest → ℕ → FetchPlan → ResourceAnswer × Option Text
answer_plan req max_bytes (FetchPlan.ready resource) =
    (chunk_answer (resource_chunk req resource.content_type resource.bytes max_bytes), none)
answer_plan req max_bytes (FetchPlan.start source_url) =
    (answer_accepted (pending_resource_response req async_resource_retry_after_ms), some source_url)
answer_plan req max_bytes FetchPlan.waits =
    (answer_accepted (pending_resource_response req async_resource_retry_after_ms), none)
answer_plan req max_bytes (FetchPlan.failure message) =
    (answer_resource (not_available message), none)
answer_plan req max_bytes FetchPlan.missing =
    (answer_resource (not_registered req.resource_id), none)

abbrev pub chunk_limit : ℕ → ℕ
chunk_limit max_bytes = if eqb max_bytes 0 then default_resource_chunk_bytes else max_bytes

unfoldable pub handle_get_resource :
    Result GetResourceRequest Text
    → ℕ
    → ResourceState
    → ResourceState × ResourceAnswer × Option Text
handle_get_resource (err message) now s = (s, answer_bad_request (undecodable message), none)
handle_get_resource (ok req) now s =
    let max_bytes = chunk_limit req.max_bytes in
    if is_empty (trim req.resource_id)
    then (s, answer_bad_request empty_resource_id, none)
    else if ltb max_resource_chunk_bytes max_bytes
    then (s, answer_bad_request (exceeds_max_bytes max_bytes), none)
    else let (s', plan) = begin_fetch req.resource_id now s in
      let (answer, spawned) = answer_plan req max_bytes plan in (s', answer, spawned)
