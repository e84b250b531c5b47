-- ===== src/Stats/Tests.antt =====
-- The theorem on stats.c with an exact arithmetic, in which a number is its own pattern.
use craftsman_console.Base.{
  ℕ, ◌+◌, ◌-◌, ◌*◌, ◌/◌, ◌≤◌, ◌≡◌, refl, ◌⊎◌, List, [], ◌∷◌, arith, min, max,
}
use craftsman_console.Stats.{Arithmetic, stats_count, stats_min, stats_max, all_ones}
use craftsman_console.Stats.Bounds.{IsOrdered, add_all, AllBetween, IsSample, stats_add-bounds}

abbrev pub exact : Arithmetic
exact = record {
  add = ◌+◌;
  sub = ◌-◌;
  mul = ◌*◌;
  div = ◌/◌;
  sqrt = λ x. x;
  fmin = min;
  fmax = max;
  round = λ n. n;
  round_signed = λ n. n;
  round_float = λ n. n;
  round_float_signed = λ n. n;
  truncate = λ n. n;
  half = 0;
}

exact-IsOrdered : IsOrdered exact (λ x. Unit) ◌≤◌
exact-IsOrdered = record {
  rounds = λ n. tt;
  reflexive = λ x n. omega arith;
  transitive = λ x y z l r. omega (arith, l, r);
  fmin_le = λ x y nx ny. (omega arith, omega arith);
  fmin_of = λ x y nx ny. omega arith;
  le_fmax = λ x y nx ny. (omega arith, omega arith);
  fmax_of = λ x y nx ny. omega arith;
  count = λ n h. refl;
}

abbrev samples : List ℕ
samples = 30 ∷ 10 ∷ 20 ∷ []

add_samples :
    (stats_count (add_all exact samples) ≡ 3)
    × AllBetween ◌≤◌ (stats_min (add_all exact samples)) (stats_max (add_all exact samples)) samples
    × ((stats_min (add_all exact samples) ≡ all_ones)
        ⊎ IsSample (stats_min (add_all exact samples)) samples)
    × ((stats_max (add_all exact samples) ≡ 0)
        ⊎ IsSample (stats_max (add_all exact samples)) samples)
    × (stats_min (add_all exact samples) ≤ all_ones)
    × (0 ≤ stats_max (add_all exact samples))
add_samples =
    stats_add-bounds exact (λ x. Unit) ◌≤◌ samples exact-IsOrdered (tt, (tt, (tt, tt)))
      (omega arith)
