-- ===== src/Tests.antt =====
-- The theorems at concrete inputs, with float64 and float32 as numbers of hundredths.
mod Trees
mod Prompts
mod Vectors
mod Sweeps
mod Workers
mod Sessions
mod Services
use acgc_project.Common.{ℕ, ◌+◌, ◌-◌, ◌*◌, ◌/◌, ltb, leb, ◌==◌, if◌then◌else◌}
use acgc_project.Domain.{Floats}

abbrev pub hundredths : Floats
hundredths = record {
  F = ℕ;
  F32 = ℕ;
  lt = ltb;
  le = leb;
  lt32 = ltb;
  fadd = λ a b. a + b;
  fsub = λ a b. a - b;
  fmul = λ a b. (a * b) / 100;
  fdiv = λ a b. if b == 0 then 0 else (a * 100) / b;
  fmin = λ a b. if ltb a b then a else b;
  fmax = λ a b. if ltb a b then b else a;
  exp = λ a. 100 + a;
  sqrt = λ a. a;
  of_int = λ n. n * 100;
  to_int = λ a. a / 100;
  literal = λ n k. if k == 0 then n * 100 else if k == 1 then n * 10 else if k == 2 then n else 0;
  fsub32 = λ a b. a - b;
  literal32 = λ n. n * 100;
  feq = λ a b. a == b;
  widen = λ a. a;
  narrow = λ a. a;
}
