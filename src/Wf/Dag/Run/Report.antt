-- ===== src/Wf/Dag/Run/Report.antt =====
-- crates/altair-wf/src/patterns.rs: the outcomes of nodes and the output of `run_dag`.
use mathlib.Core.List.{append-nil, append_assoc}
use altair_rs.Prelude.{
  ℕ, suc, ◌+◌, ◌≡◌, refl, sym, ap, ◌∙◌, Bool, true, false, Option, none, some, List, [], ◌∷◌, ◌++◌,
  map, if◌then◌else◌, length, arith, Bool-cases, inl, inr,
}
use altair_rs.Prelude.Text.{String}
use altair_rs.Prelude.StringMap.{insert}
use altair_rs.Wf.Error.{pattern_stopped, display, Result, ok, err, ◌>>=◌}
use altair_rs.Wf.Task.{TaskOutput}
use altair_rs.Wf.Patterns.{reported}
use altair_rs.Wf.Patterns.Summary.{failure_of}
use altair_rs.Wf.Dag.Run.{NodeResult, DagOutput, empty_output, settle_node, settle_layer}

abbrev counted : Option String → ℕ → ℕ
counted none n = n + 1
counted (some reason) n = n

abbrev noted : String → Option String → Option (String × String) → Option (String × String)
noted name none later = later
noted name (some reason) later = some (name, reason)

abbrev not_counted : Option String → ℕ → ℕ
not_counted none n = n
not_counted (some reason) n = n + 1

abbrev pub stopped_by : {A : Type 0} → Bool → Option (String × String) → A → Result A
stopped_by true (some (name, reason)) state = err (pattern_stopped name reason)
stopped_by true none state = ok state
stopped_by false failure state = ok state

bind_assoc :
    {A B : Type 0} (r : Result A) (f : A → Result B) {C : Type 0} (g : B → Result C)
    → ((r >>= f) >>= g) ≡ (r >>= λ a. f a >>= g)
bind_assoc (ok a) f g = refl
bind_assoc (err e) f g = refl

module _ {O : Type 0} ⦃to : TaskOutput O⦄ where
  abbrev pub node_result : String × Result O → NodeResult O
  node_result (name, ok out) =
      if to.is_success out
      then record { name = name; result = some out; error = none; success = true }
      else record { name = name; result = some out; error = to.error out; success = false }
  node_result (name, err e) = record {
    name = name;
    result = none;
    error = some (display e);
    success = false;
  }

  -- The outputs of the successful nodes, over those of `m`.
  abbrev stored : String × Result O → List (String × O) → List (String × O)
  stored (name, ok out) m = if to.is_success out then insert name out m else m
  stored (name, err e) m = m

  abbrev pub all_stored : List (String × Result O) → List (String × O) → List (String × O)
  all_stored [] m = m
  all_stored (x ∷ xs) m = all_stored xs (stored x m)

  -- How many outcomes are successes.
  abbrev pub succeeded : List (String × Result O) → ℕ
  succeeded [] = 0
  succeeded (x ∷ xs) = counted (failure_of x.1) (succeeded xs)

  -- The first failure, with its node and reason.
  abbrev pub first_failure : List (String × Result O) → Option (String × String)
  first_failure [] = none
  first_failure (x ∷ xs) = noted x.0 (failure_of x.1) (first_failure xs)

  abbrev pub failed : List (String × Result O) → ℕ
  failed [] = 0
  failed (x ∷ xs) = not_counted (failure_of x.1) (failed xs)

  -- The state with the outcomes added.
  abbrev pub with_outcomes : List (String × Result O) → DagOutput O → DagOutput O
  with_outcomes xs state = record {
    results = all_stored xs state.results;
    node_results = state.node_results ++ map node_result xs;
    total_success = state.total_success + succeeded xs;
    total_failed = state.total_failed + failed xs;
  }

  -- The output on the outcomes, or the first failure where failures stop the run.
  abbrev pub dag_report : Bool → List (String × Result O) → Result (DagOutput O)
  dag_report fail_fast xs = stopped_by fail_fast (first_failure xs) (with_outcomes xs empty_output)

  output_path :
      (a b : DagOutput O)
      → a.results ≡ b.results
      → a.node_results ≡ b.node_results
      → a.total_success ≡ b.total_success
      → a.total_failed ≡ b.total_failed
      → a ≡ b
  output_path a b p q r s =
      λ i. record { results = p i; node_results = q i; total_success = r i; total_failed = s i }

  nothing_more : (state : DagOutput O) → state ≡ with_outcomes [] state
  nothing_more state =
      output_path state (with_outcomes [] state) refl (sym (append-nil state.node_results))
        (omega arith) (omega arith)

  -- One failed outcome: the loop stops, or goes on with the failure in the state.
  settle_failed :
      (fail_fast : Bool) (name reason : String) (xs : List (String × Result O))
      (next done : DagOutput O)
      → settle_layer false xs next ≡ ok done
      → ((if fail_fast then err (pattern_stopped name reason) else ok next)
          >>= settle_layer fail_fast xs)
        ≡ stopped_by fail_fast (some (name, reason)) done
  settle_failed true name reason xs next done h = refl
  settle_failed false name reason xs next done h = h

  pub settle_layer_lem :
      (fail_fast : Bool) (xs : List (String × Result O)) (state : DagOutput O)
      → settle_layer fail_fast xs state
        ≡ stopped_by fail_fast (first_failure xs) (with_outcomes xs state)
  unfolding settle_layer settle_node
  settle_layer_lem true [] state = ap ok (nothing_more state)
  settle_layer_lem false [] state = ap ok (nothing_more state)
  settle_layer_lem fail_fast ((name, ok out) ∷ xs) state = elim (Bool-cases (to.is_success out)) [
    | inl passed ↦ rw passed (
        settle_layer_lem fail_fast xs _
        ∙ ap (stopped_by fail_fast (first_failure xs))
            (output_path _ _ refl (append_assoc state.node_results _ _) (omega arith) refl))
    | inr lost ↦ rw lost (
        settle_failed fail_fast name (reported out) xs _ _ (
          settle_layer_lem false xs _
          ∙ ap ok (output_path _ _ refl (append_assoc state.node_results _ _) refl (omega arith))))
  ]
  settle_layer_lem fail_fast ((name, err e) ∷ xs) state =
      settle_failed fail_fast name (display e) xs _ _ (
        settle_layer_lem false xs _
        ∙ ap ok (output_path _ _ refl (append_assoc state.node_results _ _) refl (omega arith)))

  pub settle_layer-append :
      (fail_fast : Bool) (xs ys : List (String × Result O)) (state : DagOutput O)
      → settle_layer fail_fast (xs ++ ys) state
        ≡ (settle_layer fail_fast xs state >>= settle_layer fail_fast ys)
  unfolding settle_layer
  settle_layer-append fail_fast [] ys state = refl
  settle_layer-append fail_fast ((name, outcome) ∷ xs) ys state =
      ap (λ f. settle_node fail_fast name outcome state >>= f)
        (λ i s. settle_layer-append fail_fast xs ys s i)
      ∙ sym (
          bind_assoc (settle_node fail_fast name outcome state) (settle_layer fail_fast xs)
            (settle_layer fail_fast ys))

  -- Every outcome is counted, as a success or as a failure.
  pub succeeded-add-failed : (xs : List (String × Result O)) → succeeded xs + failed xs ≡ length xs
  succeeded-add-failed [] = omega arith
  succeeded-add-failed (x ∷ xs) = one (failure_of x.1) (succeeded-add-failed xs)
    where
      one :
          (o : Option String)
          → succeeded xs + failed xs ≡ length xs
          → counted o (succeeded xs) + not_counted o (failed xs) ≡ suc (length xs)
      one none h = omega arith
      one (some reason) h = omega arith

  node_result-name : (x : String × Result O) → (node_result x).name ≡ x.0
  node_result-name (name, ok out) = elim (Bool-cases (to.is_success out)) [
    | inl passed ↦ rw passed
    | inr lost ↦ rw lost
  ]
  node_result-name (name, err e) = refl

  -- The results stand under the names of the outcomes.
  pub node_results-names :
      (xs : List (String × Result O)) → map (λ r. r.name) (map node_result xs) ≡ map (λ x. x.0) xs
  node_results-names [] = refl
  node_results-names (x ∷ xs) = λ i. node_result-name x i ∷ node_results-names xs i
