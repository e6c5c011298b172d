-- ===== src/Hooks/Reference.antt =====
-- What the hooks of src/native-agent-hooks.ts decision_from, said without their loops.
use xautojs_devspace.Hooks.{HookDecision, HookInput, HookResult, HookRule, hook_audit_only}
use xautojs_devspace.Hooks.Manager.{
  HookHandler, HookLog, HookManager, Progress, after_handlers, decision_rank, default_hook_result,
  finish_run, hook_rule_matches, hook_rule_result, is_blocking, is_denying, merge_hook_results,
  ongoing, record_hook_result, returned, run_handlers, run_hooks, run_rules,
}
use xautojs_devspace.Prelude.{
  Bool, Bool-cases, In, List, Option, Option-cases, [], ap, arith, false, get_or, if◌then◌else◌,
  inl, inr, leb, ltb, map, none, refl, some, sym, true, ◌&&◌, ◌++◌, ◌<◌, ◌∙◌, ◌∷◌, ◌≡◌, ◌≤◌, ◌⊎◌,
}
use xautojs_devspace.Prelude.JsMap.{get}

-- The results of the rules that match.
unfoldable pub matching : List HookRule → HookInput → List HookResult
matching [] input = []
matching (rule ∷ rest) input =
    let others = matching rest input in
    if hook_rule_matches rule input then hook_rule_result rule ∷ others else others

-- What the handlers of the event say, and then what the rules that match say.
unfoldable pub opinions : HookManager → HookInput → List HookResult
opinions m input =
    map (λ (handler : HookHandler). handler input)
      (get_or (get input.hook_event_name m.handlers) [])
    ++ matching m.rules input

-- The first result that does not let the run go on.
unfoldable pub first_stop : List HookResult → Option HookResult
first_stop [] = none
first_stop (r ∷ rs) = let later = first_stop rs in if r.continues then later else some r

-- The first of the results whose decision has the greatest rank; the default has the least.
unfoldable pub strongest : List HookResult → HookResult
strongest [] = default_hook_result
strongest (r ∷ rs) =
    let later = strongest rs in
    if ltb 0 (decision_rank r.decision)
      && leb (decision_rank later.decision) (decision_rank r.decision)
    then r
    else later

unfoldable pub decision_from : List HookResult → HookResult
unfolding first_stop strongest
decision_from rs = get_or (first_stop rs) (strongest rs)

-- The two loops, on the results.
progress_of : HookResult → Bool → List HookResult → Progress
progress_of final observed [] = ongoing final observed
progress_of final observed (r ∷ rs) = elim r.continues [
  | false ↦ returned r
  | true ↦ progress_of (merge_hook_results final r) true rs
]

run_handlers-progress :
    (handlers : List HookHandler) (input : HookInput) (final : HookResult) (observed : Bool)
    (log : HookLog)
    → (run_handlers handlers input final observed log).1
      ≡ progress_of final observed (map (λ (handler : HookHandler). handler input) handlers)
unfolding run_handlers progress_of map
run_handlers-progress [] input final observed log = refl
run_handlers-progress (handler ∷ rest) input final observed log = ground (
  arith,
  run_handlers-progress rest input (merge_hook_results final (handler input)) true
      (record_hook_result input (handler input) log),
)

run_rules-progress :
    (rules : List HookRule) (input : HookInput) (final : HookResult) (observed : Bool)
    (log : HookLog)
    → (run_rules rules input final observed log).1
      ≡ progress_of final observed (matching rules input)
unfolding run_rules progress_of matching
run_rules-progress [] input final observed log = refl
run_rules-progress (rule ∷ rest) input final observed log = ground (
  arith,
  run_rules-progress rest input final observed log,
  run_rules-progress rest input (merge_hook_results final (hook_rule_result rule)) true
      (record_hook_result input (hook_rule_result rule) log),
)

-- The result of a loop that is done.
abbrev result_of : Progress → HookResult
result_of (returned r) = r
result_of (ongoing final observed) = final

then_rules : Progress → List HookResult → HookResult
unfolding progress_of
then_rules (returned r) rs = r
then_rules (ongoing final observed) rs = result_of (progress_of final observed rs)

progress_of-append :
    (final : HookResult) (observed : Bool) (xs ys : List HookResult)
    → result_of (progress_of final observed (xs ++ ys))
      ≡ then_rules (progress_of final observed xs) ys
unfolding progress_of then_rules
progress_of-append final observed [] ys = refl
progress_of-append final observed (x ∷ xs) ys =
    ground (arith, progress_of-append (merge_hook_results final x) true xs ys)

finish_run-result :
    (input : HookInput) (p : HookLog × Progress) → (finish_run input p).1 ≡ result_of p.1
unfolding finish_run
finish_run-result input (log, returned r) = refl
finish_run-result input (log, ongoing final observed) = ground arith

after_handlers-result :
    (m : HookManager) (input : HookInput) (p : HookLog × Progress)
    → (after_handlers m input p).1 ≡ then_rules p.1 (matching m.rules input)
unfolding after_handlers then_rules
after_handlers-result m input (log, returned r) = refl
after_handlers-result m input (log, ongoing final observed) =
    finish_run-result input (run_rules m.rules input final observed log)
    ∙ ap result_of (run_rules-progress m.rules input final observed log)

merge-eq :
    (final r : HookResult)
    → final.continues ≡ true
    → r.continues ≡ true
    → merge_hook_results final r
      ≡ (if ltb (decision_rank final.decision) (decision_rank r.decision) then r else final)
unfolding merge_hook_results
merge-eq final r h k = ground arith

-- Where `final` gives way to `r` and the winner to what comes after.
strongest-step :
    (final r : HookResult) (rs : List HookResult)
    → (if ltb
          (decision_rank
            (if ltb (decision_rank final.decision) (decision_rank r.decision)
              then r
              else final).decision)
          (decision_rank (strongest rs).decision)
        then strongest rs
        else if ltb (decision_rank final.decision) (decision_rank r.decision)
        then r
        else final)
      ≡ (if ltb (decision_rank final.decision) (decision_rank (strongest (r ∷ rs)).decision)
          then strongest (r ∷ rs)
          else final)
unfolding strongest
strongest-step final r rs = ground arith

progress_of-decision_from :
    (final : HookResult) (observed : Bool) (rs : List HookResult)
    → final.continues ≡ true
    → result_of (progress_of final observed rs)
      ≡ get_or (first_stop rs) (
          if ltb (decision_rank final.decision) (decision_rank (strongest rs).decision)
          then strongest rs
          else final)
unfolding progress_of first_stop
progress_of-decision_from final observed [] h = unfold strongest decision_rank in ground arith
progress_of-decision_from final observed (r ∷ rs) h = elim (Bool-cases r.continues) [
  | inr stops ↦ ground arith
  | inl goes ↦
      let merged = merge_hook_results final r in
      let e = merge-eq final r h goes in
      let ih = progress_of-decision_from merged true rs (ground arith) in
      ground (arith, ih, e, strongest-step final r rs)
]

strongest-cases :
    (rs : List HookResult)
    → (strongest rs ≡ default_hook_result) ⊎ (0 < decision_rank (strongest rs).decision)
unfolding strongest
strongest-cases [] = inl refl
strongest-cases (r ∷ rs) = ground (arith, strongest-cases rs)

strongest-default :
    (rs : List HookResult)
    → (if ltb (decision_rank hook_audit_only) (decision_rank (strongest rs).decision)
        then strongest rs
        else default_hook_result)
      ≡ strongest rs
strongest-default rs = elim (strongest-cases rs) [
  | inl e ↦ rw e (unfold decision_rank in refl)
  | inr positive ↦ ground (arith, rank_zero)
]
  where
    rank_zero : decision_rank hook_audit_only ≡ 0
    rank_zero = unfold decision_rank in refl

decision_from-default :
    (rs : List HookResult)
    → get_or (first_stop rs) (
        if ltb (decision_rank hook_audit_only) (decision_rank (strongest rs).decision)
        then strongest rs
        else default_hook_result)
      ≡ decision_from rs
unfolding decision_from
decision_from-default rs = ap (λ (r : HookResult). get_or (first_stop rs) r) (strongest-default rs)

-- The result of a run is that of the first opinion whose `continue` is false, whatever its decision
-- and those before it, where there is one, and otherwise, also where some opinion blocks or denies,
-- the first opinion of the greatest rank, or the default where none has a rank above it.
pub run_hooks-decision_from :
    (m : HookManager) (input : HookInput) (log : HookLog)
    → (run_hooks m input log).1 ≡ decision_from (opinions m input)
unfolding run_hooks opinions
run_hooks-decision_from m input log =
    let handlers = get_or (get input.hook_event_name m.handlers) [] in
    after_handlers-result m input (run_handlers handlers input default_hook_result false log)
    ∙ ap (λ p. then_rules p (matching m.rules input))
        (run_handlers-progress handlers input default_hook_result false log)
    ∙ sym (
        progress_of-append default_hook_result false
          (map (λ (handler : HookHandler). handler input) handlers) (matching m.rules input))
    ∙ progress_of-decision_from default_hook_result false (opinions m input) refl
    ∙ decision_from-default (opinions m input)

-- An opinion is at most as strong as the strongest.
strongest-ge :
    (rs : List HookResult) (r : HookResult)
    → In r rs
    → decision_rank r.decision ≤ decision_rank (strongest rs).decision
unfolding strongest
strongest-ge [] r m = elim m [ ]
strongest-ge (x ∷ rs) r (inl e) = rw e (ground arith)
strongest-ge (x ∷ rs) r (inr m) = ground (arith, strongest-ge rs r m)

first_stop-stops :
    (rs : List HookResult) {r : HookResult} → first_stop rs ≡ some r → r.continues ≡ false
unfolding first_stop
first_stop-stops [] {r} h = cc
first_stop-stops (x ∷ rs) {r} h = ground (arith, first_stop-stops rs {r = r})

all_continue :
    (rs : List HookResult) (r : HookResult) → first_stop rs ≡ none → In r rs → r.continues ≡ true
unfolding first_stop
all_continue [] r h m = elim m [ ]
all_continue (x ∷ rs) r h (inl e) = rw e (ground arith)
all_continue (x ∷ rs) r h (inr m) = ground (arith, all_continue rs r (ground arith) m)

denying_rank : (d : HookDecision) → is_denying d ≡ leb 3 (decision_rank d)
unfolding decision_rank
denying_rank d = ground arith

-- A run is blocked if any handler of the event, or any rule that matches, blocks: no later opinion
-- takes that back.
pub run_hooks-blocked :
    (m : HookManager) (input : HookInput) (log : HookLog) (r : HookResult)
    → In r (opinions m input)
    → is_blocking r ≡ true
    → is_blocking (run_hooks m input log).1 ≡ true
unfolding decision_from
run_hooks-blocked m input log r member blocks =
    rw (run_hooks-decision_from m input log) (blocked (opinions m input) r member blocks)
  where
    blocked :
        (rs : List HookResult) (r : HookResult)
        → In r rs
        → is_blocking r ≡ true
        → is_blocking (decision_from rs) ≡ true
    blocked rs r member blocks = elim (Option-cases (first_stop rs)) [
      | inr (x, stops) ↦ ground (arith, first_stop-stops rs {r = x} stops)
      | inl none_stops ↦ ground (
        arith,
        all_continue rs r none_stops member,
        strongest-ge rs r member,
        denying_rank r.decision,
        denying_rank (strongest rs).decision,
      )
    ]
