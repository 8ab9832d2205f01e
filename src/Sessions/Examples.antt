-- ===== src/Sessions/Examples.antt =====
-- `resolveSession` at a concrete table.
use pocketclaw_telegram.Types.{Session}
use pocketclaw_telegram.Sessions.{
  Resolved, resolve_session, new_session, existing_session, find_session_for_agent, per_thread,
}
use pocketclaw_telegram.Prelude.{true, some, ◌∷◌, ◌≡◌, [], false, refl}
use pocketclaw_telegram.Fixtures.{session_a}
use pocketclaw_telegram.Sessions.Resolve.{resolve_session_again}

abbrev made : Session
made = new_session 7 "s-new" "ag-1" (some "mg-2") (some "t-2") per_thread

abbrev resolved : Resolved
resolved = record { session = made; created = true; sessions = session_a ∷ made ∷ [] }

resolve_session_again_example :
    resolve_session 9 "s-other" resolved.sessions "ag-1" (some "mg-2") (some "t-2") per_thread
    ≡ some (record { session = made; created = false; sessions = resolved.sessions })
unfolding resolve_session existing_session find_session_for_agent
resolve_session_again_example =
    resolve_session_again 7 9 "s-new" "s-other" (session_a ∷ []) "ag-1" (some "mg-2") (some "t-2")
      per_thread resolved ((λ e. absurd (cc)), (λ e. absurd (cc))) refl
