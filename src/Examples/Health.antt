-- ===== src/Examples/Health.antt =====
-- Two workers at concrete times, with the deadline of the program.
use asc_message_relayer.Prelude.{
  ℕ, ◌≡◌, Bool, true, false, ◌&&◌, List, [], ◌∷◌, ◌++◌, contains, arith,
}
use asc_message_relayer.Health.{Beat, new, beats, status, progress_deadline}
use asc_message_relayer.Health.Heard.{beats-heard, beats-silent}

abbrev beat_of : ℕ → ℕ → Bool → Beat
beat_of time name succeeded = record { time = time; name = name; succeeded = succeeded }

-- Worker 1 keeps failing; worker 2 has stopped.
abbrev earlier : List Beat
earlier = beat_of 1000 1 true ∷ beat_of 1000 2 true ∷ []

abbrev failing : Beat
failing = beat_of 500000 1 false

beats-heard_example :
    (contains (status 700000 (beats (earlier ++ failing ∷ []) (new progress_deadline))).stale 1
      ≡ false)
    × ((false
          && contains
              (status 700000 (beats (earlier ++ failing ∷ []) (new progress_deadline))).degraded
              1)
        ≡ false)
beats-heard_example =
    beats-heard earlier [] failing progress_deadline 700000 (omega arith) tt (omega arith)

beats-silent_example :
    contains
      (status 700000
        (beats ([] ++ beat_of 1000 2 true ∷ failing ∷ []) (new progress_deadline))).stale
      2
    ≡ true
beats-silent_example =
    beats-silent [] (failing ∷ []) (beat_of 1000 2 true) progress_deadline 700000 tt (omega arith)
      ((λ e. absurd (omega (arith, e))), tt)
