-- ===== src/Stats.antt =====
-- stats.c and float.c: the moments of a series of samples, and numbers as `double`. A `double` is its 64
-- bits; what the machine computes with them is a parameter.
pub mod Bounds
pub mod Tests
use Prim.Native.Nat.{bit_and, bit_xor}
use craftsman_console.Base.{ℕ, zero, suc, ◌+◌, ◌-◌, ◌*◌, ◌/◌, ◌%◌, ◌^◌, List, [], ◌∷◌, replicate}

-- The operations of the machine and of math.h on `double`. `round` is the conversion of a number to the
-- nearest `double`, and `truncate` that of a `double` to an unsigned number; `round_signed` takes the 64 bits
-- of a signed number, and `round_float` and `round_float_signed` give the 32 bits of a `float`.
pub record Arithmetic : Type 0 where
  pub add : ℕ → ℕ → ℕ
  pub sub : ℕ → ℕ → ℕ
  pub mul : ℕ → ℕ → ℕ
  pub div : ℕ → ℕ → ℕ
  pub sqrt : ℕ → ℕ
  pub fmin : ℕ → ℕ → ℕ
  pub fmax : ℕ → ℕ → ℕ
  pub round : ℕ → ℕ
  pub round_signed : ℕ → ℕ
  pub round_float : ℕ → ℕ
  pub round_float_signed : ℕ → ℕ
  pub truncate : ℕ → ℕ
  pub half : ℕ

-- `Stats_t`
pub record Stats : Type 0 where
  pub moment_0 : ℕ
  pub moment_1 : ℕ
  pub moment_2 : ℕ
  pub min_sample : ℕ
  pub max_sample : ℕ

unfoldable pub stats_count : Stats → ℕ
stats_count accum = accum.moment_0

unfoldable pub stats_mean : Stats → ℕ
stats_mean accum = accum.moment_1

unfoldable pub stats_min : Stats → ℕ
stats_min accum = accum.min_sample

unfoldable pub stats_max : Stats → ℕ
stats_max accum = accum.max_sample

-- `~0u`
abbrev pub all_ones : ℕ
all_ones = 2 ^ 32 - 1

module _ (fp : Arithmetic) where
  unfoldable pub stats_variance : Stats → ℕ
  stats_variance accum = fp.div accum.moment_2 accum.moment_0

  unfoldable pub stats_unbiased_rs_dev : Stats → ℕ
  stats_unbiased_rs_dev accum = fp.sqrt (
      fp.div accum.moment_2
        (fp.mul (fp.mul accum.moment_1 accum.moment_1) (fp.sub accum.moment_0 (fp.round 1))))

  unfoldable pub stats_init : Stats
  stats_init = record {
    moment_0 = fp.round 0;
    moment_1 = fp.round 0;
    moment_2 = fp.round 0;
    min_sample = fp.round all_ones;
    max_sample = fp.round 0;
  }

  unfoldable pub stats_init_array : ℕ → List Stats
  unfolding stats_init
  stats_init_array n = replicate n stats_init

  unfoldable pub stats_add : ℕ → Stats → Stats
  stats_add sample accum =
      let n = accum.moment_0 in
      let n1 = fp.add n (fp.round 1) in
      let diff_from_mean = fp.sub sample accum.moment_1 in
      let mean_accum = fp.div diff_from_mean n1 in
      let delta2 = fp.mul (fp.mul mean_accum diff_from_mean) n in
      record {
        moment_0 = fp.add accum.moment_0 (fp.round 1);
        moment_1 = fp.add accum.moment_1 mean_accum;
        moment_2 = fp.add accum.moment_2 delta2;
        min_sample = fp.fmin sample accum.min_sample;
        max_sample = fp.fmax sample accum.max_sample;
      }

  unfoldable pub signed_to_float : ℕ → ℕ
  signed_to_float i = fp.round_float_signed i

  unfoldable pub signed_to_double : ℕ → ℕ
  signed_to_double i = fp.round_signed i

  unfoldable pub to_float : ℕ → ℕ
  to_float i = fp.round_float i

  unfoldable pub to_double : ℕ → ℕ
  to_double i = fp.round i

  unfoldable pub double_uint64 : ℕ → ℕ
  double_uint64 d = fp.truncate d

-- The bit of the sign, in the upper half.
unfoldable pub double_sign : ℕ → ℕ
double_sign d = bit_and (d / 2 ^ 32) (2 ^ 31)

-- `*d` after the call
unfoldable pub double_signxor : ℕ → ℕ → ℕ
unfolding double_sign
double_signxor d o = d % 2 ^ 32 + bit_xor (d / 2 ^ 32) (double_sign o) * 2 ^ 32

unfoldable pub double_round_uint64 : Arithmetic → ℕ → ℕ
unfolding double_signxor
double_round_uint64 fp d = fp.truncate (fp.add d (double_signxor fp.half d))
