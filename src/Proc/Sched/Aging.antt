-- ===== src/Proc/Sched/Aging.antt =====
-- The aging pass of the MLFQ scheduler in xv6 modified/proc.c: what it does with one process.
use osn_assignments.Base.{
  ℕ, suc, ◌-◌, ◌<◌, ◌≤◌, ◌≡◌, ◌≢◌, refl, sym, ◌∙◌, ap, inl, inr, ltb, ◌==◌, if◌then◌else◌, true,
  false, Bool-cases, Option, some, List, [], ◌∷◌, ◌++◌, length, get_or, arith,
}
use osn_assignments.Proc.Types.{Proc, Kernel, proc_at, put_proc, zero_proc, dec_word}
use osn_assignments.Proc.Queue.{is_ptr, level, push, remove}
use osn_assignments.Proc.Queue.Window.{contents, contains, erase}
use osn_assignments.Proc.Queue.Push.{IsQueues, push-contents, remove_lem, accepts}
use osn_assignments.Proc.Lifecycle.Wake.{put_proc_self}
use osn_assignments.Proc.Sched.{age_proc}
use osn_assignments.Proc.Timer.Slices.{push-qn}

erase_only :
    (p : ℕ) (l : List (Option ℕ))
    → contains p l ≡ true
    → (if length l == 1 then [] else if contains p l then erase p l else l) ≡ erase p l
erase_only p [] h = refl
erase_only p (x ∷ []) h = elim (Bool-cases (is_ptr x p)) [
  | inl e ↦ rw e refl
  | inr e ↦ absurd (clash (rw e at h))
]
  where
    clash : false ≡ true → ⊥
    clash q = cc
erase_only p (x ∷ (y ∷ l)) h =
    let two : (suc (suc (length l)) == 1) ≡ false = ground arith in rw (two, h) refl

-- The process `p` of level `i` has gone to the end of the level above, if push accepts it there.
pub record Promoted (i p : ℕ) (k k' : Kernel) : Type 0 where
  pub qn : (proc_at k' p).qn ≡ i - 1
  pub left : contents (level k'.queues i) ≡ erase p (contents (level k.queues i))
  pub above : contents (level k'.queues (i - 1)) ≡ (
      if accepts (i - 1) p (remove i p k).queues
      then contents (level k.queues (i - 1)) ++ (some p ∷ [])
      else contents (level k.queues (i - 1)))
  pub others :
      (j : ℕ) → i ≢ j → i - 1 ≢ j → contents (level k'.queues j) ≡ contents (level k.queues j)

-- What aging does with the process `p` of level `i`.
pub data AgeSpec (i p : ℕ) (k : Kernel) : Type 0 where
  stays : (proc_at k p).waittime ≤ 18 → age_proc i p k ≡ k → AgeSpec i p k
  rises : 18 < (proc_at k p).waittime → Promoted i p k (age_proc i p k) → AgeSpec i p k

module _ (i p : ℕ) (k : Kernel) (low : 1 ≤ i) (high : i < 5) (v : IsQueues k.queues) where
  raise : Proc → Proc
  raise q = record q { qn = dec_word q.qn }

  raised : Kernel
  raised = put_proc (remove i p k) p raise

  after_push :
      (j : ℕ)
      → contents (level (push (i - 1) p raised).queues j) ≡ (
          if i - 1 == j
          then if accepts (i - 1) p (remove i p k).queues
            then contents (level (remove i p k).queues j) ++ (some p ∷ [])
            else contents (level (remove i p k).queues j)
          else contents (level (remove i p k).queues j))
  unfolding raised
  after_push j = push-contents (i - 1) p j raised (omega arith) ((remove_lem i p j k high v).2)

  removed_other :
      (j : ℕ) → i ≢ j → contents (level (remove i p k).queues j) ≡ contents (level k.queues j)
  removed_other j ne =
      let e : (i == j) ≡ false = ground arith in rw e at ((remove_lem i p j k high v).0)

  push-Promoted :
      p < length k.procs
      → contains p (contents (level k.queues i)) ≡ true
      → (proc_at k p).qn ≡ i
      → Promoted i p k (push (i - 1) p raised)
  unfolding raised raise
  push-Promoted lt there at_i =
      let same : i - 1 ≢ i = omega arith in
      let above : (i - 1 == i - 1) ≡ true = ground arith in
      let self : (i == i) ≡ true = ground arith in
      let apart : (i - 1 == i) ≡ false = ground arith in
      let r = remove_lem i p i k high v in
      let dec : dec_word i ≡ i - 1 = omega arith in
      record {
        qn =
            push-qn (i - 1) p p raised
            ∙ ap (λ q. q.qn) (put_proc_self (remove i p k) p raise (omega (arith, ap length r.1)))
            ∙ ap (λ ps. dec_word (get_or ps p zero_proc).qn) r.1
            ∙ ap dec_word at_i
            ∙ dec;
        left =
            (rw apart at (after_push i))
            ∙ (rw self at r.0)
            ∙ erase_only p (contents (level k.queues i)) there;
        above =
            (rw above at (after_push (i - 1)))
            ∙ ap (λ l. if accepts (i - 1) p (remove i p k).queues then l ++ (some p ∷ []) else l)
                (removed_other (i - 1) (λ q. same (sym q)));
        others = λ j n m.
            let e : (i - 1 == j) ≡ false = ground arith in
            (rw e at (after_push j)) ∙ removed_other j n;
      }

  -- On five valid levels, aging looks at a process that stands in its level `i`, one of 1 to 4: one that
  -- has waited for at most 18 ticks stays, and nothing changes; one that has waited longer leaves
  -- its level, where the others keep their order, has the level above, stands at the end of that level
  -- if push accepts it there, and no further level changes.
  pub age_proc_lem :
      p < length k.procs
      → contains p (contents (level k.queues i)) ≡ true
      → (proc_at k p).qn ≡ i
      → AgeSpec i p k
  unfolding age_proc raised raise
  age_proc_lem lt there at_i = elim (Bool-cases (ltb 18 (proc_at k p).waittime)) [
    | inr e ↦ stays (ground (arith, e)) (rw e refl)
    | inl e ↦ rises (ground (arith, e)) (rw e (push-Promoted lt there at_i))
  ]
