-- ===== src/Util/Backoff.antt =====
-- include/backoff.h: exponential back-off, with the time as an argument. A duration is in seconds,
-- a time point in ticks of `steady_clock`, whose epoch is 0.
use native.Mathlib.Nat.{pow-suc}
use ragger_cpp.Prelude.{
  Bool, Bool-cases, List, [], ap, arith, if◌then◌else◌, inl, inr, leb, length, min, refl, suc,
  tests, true, zero, ℕ, ◌*◌, ◌+◌, ◌<◌, ◌==◌, ◌^◌, ◌∙◌, ◌∷◌, ◌≡◌, ◌≤◌,
}

-- Ticks in a second: libstdc++ and libc++ count nanoseconds.
abbrev pub ticks : ℕ → ℕ
ticks seconds = seconds * 1_000_000_000

pub record Backoff : Type 0 where
  pub base : ℕ
  pub max_delay : ℕ
  pub delay : ℕ
  pub next : ℕ

-- The constructor.
pub initial : ℕ → ℕ → Backoff
initial base max_delay = record { base = base; max_delay = max_delay; delay = 0; next = 0 }

unfoldable pub due : Backoff → ℕ → Bool
due b now = leb b.next now

pub next_delay : Backoff → ℕ
next_delay b = if b.delay == 0 then b.base else min b.max_delay (b.delay * 2)

unfoldable pub failed : Backoff → ℕ → Backoff
unfolding next_delay
failed b now = record b { delay = next_delay b; next = now + ticks (next_delay b) }

unfoldable pub succeeded : Backoff → Backoff
succeeded b = record b { delay = 0; next = 0 }

-- A run of failures at the given times.
pub failures : Backoff → List ℕ → Backoff
failures b [] = b
failures b (t ∷ ts) = failures (failed b t) ts

abbrev doubled : ℕ → ℕ → ℕ
doubled zero d = d
doubled (suc n) d = doubled n (2 * d)

doubled-le : (n d : ℕ) → d ≤ doubled n d
doubled-le zero d = omega arith
doubled-le (suc n) d = omega (arith, doubled-le n (2 * d))

doubled-pow : (n d : ℕ) → doubled n d ≡ d * 2 ^ n
doubled-pow zero d = omega arith
doubled-pow (suc n) d = doubled-pow n (2 * d) ∙ rw (pow-suc 2 n) (omega arith)

min-doubled : (m n d : ℕ) → min m (doubled n (min m d)) ≡ min m (doubled n d)
min-doubled m n d = elim (Bool-cases (leb d m)) [
  | inl small ↦ ap (λ k. min m (doubled n k)) (omega (tests, small))
  | inr large ↦
      let capped : min m d ≡ m = ground arith in
      rw capped (ground (arith, doubled-le n m, doubled-le n d))
]

failures-delay :
    (b : Backoff) (ts : List ℕ)
    → 0 < b.delay
    → b.delay ≤ b.max_delay
    → (failures b ts).delay ≡ min b.max_delay (doubled (length ts) b.delay)
unfolding failures failed
failures-delay b [] h k = omega arith
failures-delay b (t ∷ ts) h k =
    let now : next_delay b ≡ min b.max_delay (2 * b.delay) = unfold next_delay in ground arith in
    failures-delay (failed b t) ts (omega (arith, now)) (omega (arith, now))
    ∙ ap (λ d. min b.max_delay (doubled (length ts) d)) now
    ∙ min-doubled b.max_delay (length ts) (2 * b.delay)

-- With a positive base of at most the maximum, the delay after n + 1 failures in a row is the
-- base doubled n times, up to the maximum.
failures-delay_doubles :
    (base max_delay t : ℕ) (ts : List ℕ)
    → 0 < base
    → base ≤ max_delay
    → (failures (initial base max_delay) (t ∷ ts)).delay ≡ min max_delay (base * 2 ^ length ts)
unfolding failures initial failed
failures-delay_doubles base max_delay t ts h k =
    failures-delay (failed (initial base max_delay) t) ts h k
    ∙ ap (min max_delay) (doubled-pow (length ts) base)

abbrev last_or : ℕ → List ℕ → ℕ
last_or t [] = t
last_or t (u ∷ ts) = last_or u ts

failures-next :
    (b : Backoff) (t : ℕ) (ts : List ℕ)
    → (failures b (t ∷ ts)).next ≡ last_or t ts + ticks (failures b (t ∷ ts)).delay
unfolding failures failed
failures-next b t [] = refl
failures-next b t (u ∷ ts) = failures-next (failed b t) u ts

-- After failures, the last of them at time t, a retry is due exactly once the delay has passed
-- since t; after a success it is due at any time.
pub due-failures :
    (b : Backoff) (t : ℕ) (ts : List ℕ) (now : ℕ)
    → (due (failures b (t ∷ ts)) now ≡ leb (last_or t ts + ticks (failures b (t ∷ ts)).delay) now)
      × (due (succeeded (failures b (t ∷ ts))) now ≡ true)
unfolding due succeeded
due-failures b t ts now = (rw (failures-next b t ts), ground arith)
