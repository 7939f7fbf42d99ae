-- ===== src/Plugins/Middleware/Once.antt =====
-- packages/wazeko/src/plugins/middleware.ts: how often the target runs.
use wazeko.Prelude.{ℕ, zero, suc, ◌+◌, ◌≤◌, ◌≡◌, refl, List, [], ◌∷◌, arith, ltb, if-cases, length}
use wazeko.Plugins.Middleware.{
  Settled, Program, ends, acts, calls_next, pass, CommandContext, MiddlewareFn, Execution,
  run_program, run_target, runner, execute,
}

-- Up to the target's turn it has not run, and then it runs once.
pub record IsCounted {W : Type 0} (n : ℕ) (s : Execution W) : Type 0 where
  pub not_before : s.next_index ≤ n → s.reached ≡ 0
  pub at_most_once : s.reached ≤ 1

module _ {W : Type 0} (P : Execution W → Type 0)
    (acts-P : (f : W → W) (s : Execution W) → P s → P (record s { world = f s.world })) where
  pub run_program-keeps :
      (m : Program W) (next : Execution W → Settled × Execution W) (s : Execution W)
      → ((s : Execution W) → P s → P (next s).1)
      → P s
      → P (run_program m next s).1
  unfolding run_program
  run_program-keeps (ends r) next s keeps h = h
  run_program-keeps (acts f rest) next s keeps h =
      run_program-keeps (rest s.world) next _ keeps (acts-P f s h)
  run_program-keeps (calls_next rest) next s keeps h =
      run_program-keeps (rest (next s).0) next (next s).1 keeps (keeps s h)

module _ {W : Type 0} (ctx : CommandContext) (target : Program W) (n : ℕ) where
  acts-IsCounted :
      (f : W → W) (s : Execution W) → IsCounted n s → IsCounted n (record s { world = f s.world })
  acts-IsCounted f s h = record { not_before = h.not_before; at_most_once = h.at_most_once }

  runner-IsCounted :
      (ms : List (MiddlewareFn W)) (i : ℕ) (s : Execution W)
      → i + length ms ≡ n
      → IsCounted n s
      → IsCounted n (runner ctx target ms i s).1
  unfolding runner run_target
  runner-IsCounted [] i s e h =
      if-cases (λ (r : Settled × Execution W). IsCounted n r.1) (ltb i s.next_index) _ _
        (λ again. h)
        (λ first.
          let before : s.next_index ≤ n = ground arith in
          let fresh = h.not_before before in
          run_program-keeps (IsCounted n) acts-IsCounted target _ _ (λ s h. h)
            (record {
              not_before = λ (k : i + 1 ≤ n). absurd (omega arith);
              at_most_once = omega arith;
            }))
  runner-IsCounted (m ∷ ms) i s e h =
      if-cases (λ (r : Settled × Execution W). IsCounted n r.1) (ltb i s.next_index) _ _
        (λ again. h)
        (λ first.
          let before : s.next_index ≤ n = ground arith in
          run_program-keeps (IsCounted n) acts-IsCounted (m ctx) _ _
            (λ s h. runner-IsCounted ms (i + 1) s (omega arith) h)
            (record { not_before = λ k. h.not_before before; at_most_once = h.at_most_once }))

-- Whatever the middlewares do, and however often they call `next`, the target runs at most once.
pub execute-reached :
    {W : Type 0} (ms : List (MiddlewareFn W)) (ctx : CommandContext) (target : Program W) (w : W)
    → (execute ms ctx target w).1.reached ≤ 1
unfolding execute
execute-reached ms ctx target w =
    let start : IsCounted (length ms) (record { next_index = 0; world = w; reached = 0 }) = record {
      not_before = λ k. refl;
      at_most_once = omega arith;
    } in
    (runner-IsCounted ctx target (length ms) ms 0 _ (omega arith) start).at_most_once

abbrev pub passes : {W : Type 0} → ℕ → List (MiddlewareFn W)
passes zero = []
passes (suc n) = (λ ctx. pass) ∷ passes n

module _ {W : Type 0} (ctx : CommandContext) (target : Program W) where
  runner-passes :
      (n i : ℕ) (s : Execution W)
      → s.next_index ≤ i
      → (runner ctx target (passes n) i s).1.reached ≡ s.reached + 1
  unfolding runner run_target run_program
  runner-passes zero i s h =
      if-cases (λ (r : Settled × Execution W). r.1.reached ≡ s.reached + 1) (ltb i s.next_index) _ _
        (λ again. ground arith)
        (λ first.
          run_program-keeps (λ u. u.reached ≡ s.reached + 1) (λ f u k. k) target _ _ (λ u k. k)
            refl)
  runner-passes (suc n) i s h =
      if-cases (λ (r : Settled × Execution W). r.1.reached ≡ s.reached + 1) (ltb i s.next_index) _ _
        (λ again. ground arith)
        (λ first. runner-passes n (i + 1) (record s { next_index = i + 1 }) (omega arith))

-- Behind any number of middlewares that just await `next`, the target runs, and once.
pub execute-passes :
    {W : Type 0} (n : ℕ) (ctx : CommandContext) (target : Program W) (w : W)
    → (execute (passes n) ctx target w).1.reached ≡ 1
unfolding execute
execute-passes n ctx target w = runner-passes ctx target n 0 _ (omega arith)
