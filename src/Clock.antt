-- ===== src/Clock.antt =====
-- Go's time.Time as a number of nanoseconds since the zero time, which is 0. What time.Now returns
-- is the argument `wall` of the functions that may ask for it.
use nexus_local.Prelude.{ℕ, ◌+◌, ◌*◌, eqb, if◌then◌else◌, ℤ, magnitude}

abbrev pub Time : Type 0
Time = ℕ

-- `if now.IsZero() { now = time.Now().UTC() }`
unfoldable pub or_now : Time → Time → Time
or_now wall now = if eqb now 0 then wall else now

-- t.Add(time.Duration(minutes) * time.Minute), for minutes that are not negative and few
-- enough for a Duration, as the 43,200 at most that a source accepts are.
unfoldable pub add_minutes : Time → ℤ → Time
add_minutes t minutes = t + magnitude minutes * 60_000_000_000
