-- ===== src/ThreadPool/Order.antt =====
-- threadpool/queue.rs: the order of the messages.
use minifto.Common.{◌≡◌, refl, sym, ap, ◌∙◌, List, [], ◌∷◌, ◌++◌, append-nil, append_assoc, arith}
use minifto.ThreadPool.{ThreadPool, Message, Label, Step, WorkerStep, Run, expand, push, notify}

module _ {J : Type 0} where
  -- The messages that are sent in a run, and those that the workers take.
  unfoldable pub sent : List (Label J) → List (Message J)
  sent [] = []
  sent (Label.sent m ∷ trace) = m ∷ sent trace
  sent (_ ∷ trace) = sent trace

  unfoldable pub taken : List (Label J) → List (Message J)
  taken [] = []
  taken (Label.taken m ∷ trace) = m ∷ taken trace
  taken (_ ∷ trace) = taken trace

  queue-expand : (p : ThreadPool J) → (expand p).queue ≡ p.queue
  unfolding expand
  queue-expand p = ground arith

  one :
      (p p' : ThreadPool J) (a : Label J)
      → Step p a p'
      → p.queue ++ sent (a ∷ []) ≡ taken (a ∷ []) ++ p'.queue
  unfolding sent taken push notify
  one p _ _ (Step.works (WorkerStep.pops l r i m q e full)) = append-nil p.queue ∙ full
  one p _ _ (Step.works (WorkerStep.waits l r i e empty)) = append-nil p.queue
  one p _ _ (Step.works (WorkerStep.finishes l r i s e h)) = append-nil p.queue
  one p _ _ (Step.works (WorkerStep.panics l r i s e h)) = append-nil p.queue
  one p _ _ (Step.wakes l r i e) = append-nil p.queue
  one p _ _ Step.expands = append-nil p.queue ∙ sym (queue-expand p)
  one p _ _ (Step.executes job) = refl
  one p _ _ Step.drops = refl
  one p _ _ (Step.notifies k n e) = append-nil p.queue

  sent-cons :
      (a : Label J) (trace : List (Label J)) → sent (a ∷ trace) ≡ sent (a ∷ []) ++ sent trace
  unfolding sent
  sent-cons (Label.sent m) trace = refl
  sent-cons (Label.taken m) trace = refl
  sent-cons Label.quiet trace = refl

  pub sent-append : (trace more : List (Label J)) → sent (trace ++ more) ≡ sent trace ++ sent more
  unfolding sent
  sent-append [] more = refl
  sent-append (a ∷ trace) more =
      sent-cons a (trace ++ more)
      ∙ ap (λ (m : List (Message J)). sent (a ∷ []) ++ m) (sent-append trace more)
      ∙ sym (append_assoc (sent (a ∷ [])) (sent trace) (sent more))
      ∙ ap (λ (m : List (Message J)). m ++ sent more) (sym (sent-cons a trace))

  taken-cons :
      (a : Label J) (trace : List (Label J)) → taken (a ∷ trace) ≡ taken (a ∷ []) ++ taken trace
  unfolding taken
  taken-cons (Label.sent m) trace = refl
  taken-cons (Label.taken m) trace = refl
  taken-cons Label.quiet trace = refl

  -- Over any run of the pool, the messages that were in the queue and then those that are sent are
  -- those that the workers take and then those that are left, in this order: none is lost, doubled
  -- or overtaken.
  pub sent-taken :
      (p p' : ThreadPool J) (trace : List (Label J))
      → Run p trace p'
      → p.queue ++ sent trace ≡ taken trace ++ p'.queue
  unfolding sent taken
  sent-taken p _ _ Run.stop = append-nil p.queue
  sent-taken p p'' _ (Run.next {p' = p'} {a = a} {trace = trace} step run) =
      ap (λ (m : List (Message J)). p.queue ++ m) (sent-cons a trace)
      ∙ sym (append_assoc p.queue _ _)
      ∙ ap (λ (m : List (Message J)). m ++ sent trace) (one p p' a step)
      ∙ append_assoc (taken (a ∷ [])) p'.queue _
      ∙ ap (λ (m : List (Message J)). taken (a ∷ []) ++ m) (sent-taken p' p'' trace run)
      ∙ sym (append_assoc (taken (a ∷ [])) _ p''.queue)
      ∙ ap (λ (m : List (Message J)). m ++ p''.queue) (sym (taken-cons a trace))
