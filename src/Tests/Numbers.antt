-- ===== src/Tests/Numbers.antt =====
-- Stand-ins of the tests for the parameters of the model: whole numbers for floating-point numbers, in
-- which a tail is the distance to an end, and a counter for a generator of random numbers.
use roga.Base.{
  ℕ, ◌+◌, ◌-◌, ◌*◌, ◌/◌, ◌%◌, ◌^◌, ◌<◌, true, ltb, leb, ◌==◌, min, max, pos, pos_part, replicate,
}
use roga.External.{Float, Rng}
use native.Mathlib.Nat.{mod-lt}

abbrev pub whole : Float ℕ
whole = record {
  literal = λ m e. m / 10 ^ e;
  epsilon = 0;
  ln_2 = 1;
  of_nat = λ n. n;
  to_nat = λ x. x;
  to_int = λ x. pos x;
  add = λ x y. x + y;
  sub = λ x y. x - y;
  mul = λ x y. x * y;
  div = λ x y. x / y;
  neg = λ x. x;
  lt = ltb;
  le = leb;
  eq = λ x y. x == y;
  min = λ x y. min x y;
  max = λ x y. max x y;
  ln = λ x. x;
  exp = λ x. x;
  sqrt = λ x. x;
  cbrt = λ x. x;
  floor = λ x. x;
  ceil = λ x. x;
  powi = λ x k. x ^ pos_part k;
  is_finite = λ x. true;
}

pub counted-lt : (n rng : ℕ) → 0 < n → rng % n < n
counted-lt n rng h = mod-lt rng h

abbrev pub counter : Rng ℕ
counter = record {
  seed_from_u64 = λ seed. seed;
  random = λ rng. (rng * 2 ^ 62 % 2 ^ 64, rng + 1);
  random_range = λ n rng. (rng % n, rng + 1);
  random_range-lt = λ n rng h. counted-lt n rng h;
  fill_bytes = λ n rng. (replicate n (rng % 256), rng + 1);
}
