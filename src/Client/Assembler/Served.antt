-- ===== src/Client/Assembler/Served.antt =====
-- weather-core/engine/src/handlers/resource.rs as the client of weather-renderer/gui/src-tauri/src/lib.rs
-- sees it: the answers of the turns of a transfer.
use weather_app.Common.{
  Bool, true, false, not, false≢true, List, [], ◌∷◌, ℕ, suc, ◌<◌, ◌≡◌, ◌⊎◌, refl, if◌then◌else◌,
  list_eq, nat_eq, Result, ok, err,
}
use weather_app.Common.Text.{Text, trim, is_empty}
use weather_app.Schema.Messages.{GetResourceRequest, GetResourceResponse}
use weather_app.Engine.ResourceCache.{ProviderResource, ResourceState, FetchPlan, begin_fetch}
use weather_app.Engine.Transfer.{
  ResourceAnswer, answer_ok, answer_accepted, answer_bad_request, answer_resource,
  pending_resource_response, answer_plan, handle_get_resource, async_resource_retry_after_ms,
}
use weather_app.Client.Assembler.{TransferRound, resource_chunk_bytes}

-- What the client makes of an answer: an error has a message.
abbrev pub client_answer : ResourceAnswer → Result GetResourceResponse Text
client_answer (answer_ok response) = ok response
client_answer (answer_accepted response) = ok response
client_answer (answer_bad_request e) = err []
client_answer (answer_resource e) = err []

-- A turn whose request the engine answers, at an instant of its own and in a state of its cache.
pub record Served : Type 0 where
  pub now : ℕ
  pub later : ℕ
  pub served_at : ℕ
  pub state : ResourceState

abbrev pub round_of : Served → TransferRound
round_of v = record {
  now = v.now;
  response = λ req. client_answer (handle_get_resource (ok req) v.served_at v.state).1;
  later = v.later;
}

abbrev pub is_waiting : FetchPlan → Bool
is_waiting (FetchPlan.ready resource) = false
is_waiting (FetchPlan.start source_url) = true
is_waiting FetchPlan.waits = true
is_waiting (FetchPlan.failure message) = false
is_waiting FetchPlan.missing = false

pub handle-plan :
    (req : GetResourceRequest) (now : ℕ) (s : ResourceState)
    → is_empty (trim req.resource_id) ≡ false
    → req.max_bytes ≡ resource_chunk_bytes
    → (handle_get_resource (ok req) now s).1
      ≡ (answer_plan req resource_chunk_bytes (begin_fetch req.resource_id now s).1).0
unfolding handle_get_resource
handle-plan req now s h m = rw (h, m) refl

pub answer_plan-waiting :
    (req : GetResourceRequest) (plan : FetchPlan)
    → is_waiting plan ≡ true
    → (answer_plan req resource_chunk_bytes plan).0
      ≡ answer_accepted (pending_resource_response req async_resource_retry_after_ms)
unfolding answer_plan
answer_plan-waiting req (FetchPlan.start url) h = refl
answer_plan-waiting req FetchPlan.waits h = refl
answer_plan-waiting req (FetchPlan.ready resource) h = absurd (false≢true h)
answer_plan-waiting req (FetchPlan.failure message) h = absurd (false≢true h)
answer_plan-waiting req FetchPlan.missing h = absurd (false≢true h)

-- The plan of the engine for the request of a turn.
abbrev pub plan : Text → Served → FetchPlan
plan id v = (begin_fetch id v.served_at v.state).1

abbrev pub is_served : Text → Served → Bool
is_served id v = not (is_waiting (plan id v))

-- The engine has the resource, or is still to fetch it.
abbrev pub Serves : ProviderResource → Text → Served → Type 0
Serves resource id v = (plan id v ≡ FetchPlan.ready resource) ⊎ (is_waiting (plan id v) ≡ true)

-- The turns in which the engine has the resource.
abbrev pub served_count : Text → List Served → ℕ
served_count id [] = 0
served_count id (v ∷ vs) = if is_served id v then suc (served_count id vs) else served_count id vs

abbrev pub Punctual : ℕ → Served → Type 0
Punctual deadline v = (v.now < deadline) × (v.later < deadline)
