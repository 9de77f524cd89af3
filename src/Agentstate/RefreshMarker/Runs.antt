-- ===== src/Agentstate/RefreshMarker/Runs.antt =====
-- The retry schedule on disk over any number of calls (refresh_marker.go).
use qurl_connector.Base.{ℕ, ◌+◌, ◌≤◌, List, [], ◌∷◌, Bytes, bytes_eq, arith}
use qurl_connector.Agentstate.SessionOperation.Journal.Directory.{Directory}
use qurl_connector.Agentstate.RefreshMarker.Checks.{IsTime}
use qurl_connector.Agentstate.RefreshMarker.{RefreshMarker}
use qurl_connector.Agentstate.RefreshMarker.Episode.{Episode, Tracks, Episode-Tracks}
use qurl_connector.Agentstate.RefreshMarker.Store.{Format}
use qurl_connector.Agentstate.RefreshMarker.Seen.{Parses, Holds}
use qurl_connector.Agentstate.RefreshMarker.Schedule.{Call, clock, tries, perform, call-Kept}

-- Calls in the order of a clock that does not go back.
pub data InOrder : ℕ → List Call → Type 0 where
  no_calls : {t : ℕ} → InOrder t []
  then_call :
      {t : ℕ} {c : Call} {cs : List Call}
      → IsTime (clock c) × (t ≤ clock c)
      → InOrder (clock c) cs
      → InOrder t (c ∷ cs)

unfoldable pub perform_all : Format → List Call → Directory → Directory
perform_all format [] dir = dir
perform_all format (c ∷ cs) dir = perform_all format cs (perform format c dir).0

unfoldable pub all_tries : List Call → ℕ
all_tries [] = 0
all_tries (c ∷ cs) = tries c + all_tries cs

InOrder-from : (t u : ℕ) (cs : List Call) → t ≤ u → InOrder u cs → InOrder t cs
InOrder-from t u [] h o = no_calls
InOrder-from t u (c ∷ cs) h (then_call (time, later) o) = then_call (time, omega arith) o

-- The file over any number of calls: the same episode, and no attempt lost.
pub record Survives (format : Format) (reason : Bytes) (k : ℕ) (cs : List Call) (dir : Directory)
    : Type 0 where
  pub last : ℕ
  pub counted : ℕ
  pub current : RefreshMarker
  pub episode : Episode reason last counted current
  pub whole : Holds format dir current
  pub tracks : Tracks reason last counted current
  pub none_lost : k ≤ counted
  pub none_made_up : counted ≤ k + all_tries cs

-- Where the JSON text of a valid marker parses to its members, the marker file holds the marker of an
-- episode, and calls come in the order of a clock that does not go back, then whatever fails in any of
-- them the file ends whole with a valid marker of the same episode, whose count lies between the first
-- one and that plus the number of attempts: no restart, failure or new request starts the retries again.
pub calls-Survives :
    (format : Format) (reason : Bytes) (t k : ℕ) (dir : Directory) (m : RefreshMarker)
    (cs : List Call)
    → Parses format
    → Episode reason t k m
    → Holds format dir m
    → InOrder t cs
    → Survives format reason k cs (perform_all format cs dir)
unfolding perform_all all_tries
calls-Survives format reason t k dir m [] parses episode holds order = record {
  last = t;
  counted = k;
  current = m;
  episode = episode;
  whole = holds;
  tracks = (Episode-Tracks episode).0;
  none_lost = omega arith;
  none_made_up = omega arith;
}
calls-Survives format reason t k dir m (c ∷ cs) parses episode holds
      (then_call (time, later) order) =
    let kept = call-Kept format reason t k dir m c parses episode holds time later in
    let rest =
      calls-Survives format reason kept.last kept.counted (perform format c dir).0 kept.current cs
        parses kept.episode kept.whole (InOrder-from kept.last (clock c) cs kept.not_later order) in
    record {
      last = rest.last;
      counted = rest.counted;
      current = rest.current;
      episode = rest.episode;
      whole = rest.whole;
      tracks = rest.tracks;
      none_lost = omega (arith, kept.none_lost, rest.none_lost);
      none_made_up = omega (arith, kept.none_made_up, rest.none_made_up);
    }
