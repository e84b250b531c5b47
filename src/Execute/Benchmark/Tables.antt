-- ===== src/Execute/Benchmark/Tables.antt =====
-- What the calls of the library, and a benchmark of execute.c, keep of the sizes of the tables.
use craftsman_console.Base.{
  ℕ, List, arith, zero, suc, ◌+◌, ◌≡◌, inl, inr, fault, refl, sym, subst, length, get_elem?,
  or_fault, Always, bind-Always, any-Always, ◌*◌,
}
use craftsman_console.Dlfn.{Object, Code, null, noop, copy, library, Functor}
use craftsman_console.Global.{Param, Machine}
use craftsman_console.Stats.{Arithmetic}
use craftsman_console.Execute.{World}
use craftsman_console.Execute.Tables.{IsWithin}
use craftsman_console.Execute.Benchmark.{LibraryCall, Timer, functor_invoke, execute_benchmark}
use craftsman_console.Execute.Benchmark.Rounds.{
  call_times, call_each, call_rounds, world_left, execute_benchmark-rounds,
}

-- What is relied on of the library's functions: there are as many objects after a call as before.
abbrev pub KeepsObjects : LibraryCall → Type 0
KeepsObjects call =
    (addr : ℕ) (params : List Param) (objects : List Object)
    → Always (λ (r, objects'). length objects' ≡ length objects) (call addr params objects)

pub functor_invoke-IsWithin :
    (call : LibraryCall) (keeps : KeepsObjects call) (f : Functor) (w : World)
    → IsWithin w
    → Always (λ (r, w'). IsWithin w') (functor_invoke call f w)
unfolding functor_invoke
functor_invoke-IsWithin call keeps f w h = invoked f.call refl
  where
    invoked :
        (code : Code) → f.call ≡ code → Always (λ (r, w'). IsWithin w') (functor_invoke call f w)
    invoked null e = rw (functor_invoke, e) tt
    invoked noop e = rw (functor_invoke, e) tt
    invoked copy e = rw (functor_invoke, e) tt
    invoked (library addr) e =
        rw (functor_invoke, e)
          (bind-Always (λ (r, objects). length objects ≡ length w.objects) (λ (r, w'). IsWithin w')
            (call addr f.param w.objects) _ (keeps addr f.param w.objects)
            (λ (r, objects) same. record {
              vars = h.vars;
              functors = h.functors;
              used = h.used;
              results = h.results;
              loads = h.loads;
              saves = h.saves;
              rows = h.rows;
              save_handles = h.save_handles;
              functions = h.functions;
              objects = omega (arith, same, h.objects);
              hashes = h.hashes;
            }))

call_times-IsWithin :
    (call : LibraryCall) (keeps : KeepsObjects call) (k i : ℕ) (w : World)
    → IsWithin w
    → Always IsWithin (call_times call k i w)
call_times-IsWithin call keeps zero i w h = h
call_times-IsWithin call keeps (suc k) i w h =
    any-Always IsWithin (or_fault (get_elem? w.functions i)) _ (λ f.
      bind-Always (λ (r, w'). IsWithin w') IsWithin (functor_invoke call f.fnctor w) _
        (functor_invoke-IsWithin call keeps f.fnctor w h)
        (λ (r, w') h'. call_times-IsWithin call keeps k i w' h'))

call_each-IsWithin :
    (call : LibraryCall) (keeps : KeepsObjects call) (k left i : ℕ) (w : World)
    → IsWithin w
    → Always IsWithin (call_each call k left i w)
call_each-IsWithin call keeps k zero i w h = h
call_each-IsWithin call keeps k (suc left) i w h =
    bind-Always IsWithin IsWithin (call_times call k i w) _ (call_times-IsWithin call keeps k i w h)
      (call_each-IsWithin call keeps k left (i + 1))

call_rounds-IsWithin :
    (call : LibraryCall) (keeps : KeepsObjects call) (n k : ℕ) (w : World)
    → IsWithin w
    → Always IsWithin (call_rounds call n k w)
call_rounds-IsWithin call keeps zero k w h = h
call_rounds-IsWithin call keeps (suc n) k w h =
    bind-Always IsWithin IsWithin (call_each call k (length w.functions) 0 w) _
      (call_each-IsWithin call keeps k (length w.functions) 0 w h)
      (call_rounds-IsWithin call keeps n (k * 10))

pub execute_benchmark-IsWithin :
    (mach : Machine) (fp : Arithmetic) (call : LibraryCall) (keeps : KeepsObjects call)
    (timer : Timer) (w : World)
    → IsWithin w
    → Always IsWithin (world_left (execute_benchmark mach fp call timer w))
execute_benchmark-IsWithin mach fp call keeps timer w h =
    let (n, few, ends) = execute_benchmark-rounds mach fp call timer w in
    let rounds = call_rounds-IsWithin call keeps (suc n) 1 w h in
    elim ends [
      | inl same ↦ subst (Always IsWithin) (sym same) rounds
      | inr (all, over) ↦ subst (Always IsWithin) (sym over) (
          bind-Always IsWithin IsWithin (call_rounds call (suc n) 1 w) (λ w'. fault) rounds
            (λ w' h'. tt))
    ]
