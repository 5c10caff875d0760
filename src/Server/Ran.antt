-- ===== src/Server/Ran.antt =====
-- server/server.rs and threadpool/threadpool.rs: runs of the pool, by the jobs that are sent.
use minifto.Common.{
  ℕ, ◌≡◌, refl, sym, ap, subst, ◌∙◌, List, [], ◌∷◌, ◌++◌, map, append-nil, append_assoc, arith,
}
use mathlib.Core.List.{map-append}
use minifto.ThreadPool.{ThreadPool, Label, Message, Step, Run, execute, expand, push, push_back}
use minifto.ThreadPool.Order.{sent, sent-append}
use minifto.Server.Pooled.{executed}

Run-snoc :
    {J : Type 0} {p p' p'' : ThreadPool J} {trace : List (Label J)} {a : Label J}
    → Run p trace p'
    → Step p' a p''
    → Run p (trace ++ a ∷ []) p''
Run-snoc Run.stop step = Run.next step Run.stop
Run-snoc (Run.next first run) step = Run.next first (Run-snoc run step)

-- The pool after a run in which the jobs are sent, one after the other.
pub record Ran (p0 : ThreadPool ℕ) (jobs : List ℕ) (p : ThreadPool ℕ) : Type 0 where
  pub trace : List (Label ℕ)
  pub run : Run p0 trace p
  pub in_order : sent trace ≡ map Message.new_job jobs

pub Ran-quiet :
    (p0 p p' : ThreadPool ℕ) (jobs : List ℕ) (a : Label ℕ)
    → sent (a ∷ []) ≡ []
    → Ran p0 jobs p
    → Step p a p'
    → Ran p0 jobs p'
Ran-quiet p0 p p' jobs a none r step = record {
  trace = r.trace ++ a ∷ [];
  run = Run-snoc r.run step;
  in_order =
      sent-append r.trace (a ∷ [])
      ∙ ap (λ l. sent r.trace ++ l) none
      ∙ append-nil (sent r.trace)
      ∙ r.in_order;
}

-- `execute`: the expansion, the message and its notification.
Ran-execute :
    (p0 p : ThreadPool ℕ) (jobs : List ℕ) (k s : ℕ)
    → Ran p0 jobs p
    → Ran p0 (jobs ++ s ∷ []) (execute k s p)
unfolding execute push_back push sent
Ran-execute p0 p jobs k s r =
    let grown = Ran-quiet p0 p (expand p) jobs Label.quiet refl r Step.expands in
    Ran-quiet p0 (push (Message.new_job s) (expand p)) (execute k s p) (jobs ++ s ∷ []) Label.quiet
      refl
      record {
        trace = grown.trace ++ Label.sent (Message.new_job s) ∷ [];
        run = Run-snoc grown.run (Step.executes s);
        in_order =
            sent-append grown.trace (Label.sent (Message.new_job s) ∷ [])
            ∙ ap (λ l. l ++ Message.new_job s ∷ []) grown.in_order
            ∙ sym (map-append Message.new_job jobs (s ∷ []));
      }
      (Step.notifies k (expand p).due (omega arith))

pub Ran-executed :
    (p0 p : ThreadPool ℕ) (k : ℕ) (jobs more : List ℕ)
    → Ran p0 jobs p
    → Ran p0 (jobs ++ more) (executed k more p)
Ran-executed p0 p k jobs [] r = subst (λ l. Ran p0 l p) (sym (append-nil jobs)) r
Ran-executed p0 p k jobs (s ∷ more) r =
    subst (λ l. Ran p0 l (executed k more (execute k s p))) (append_assoc jobs (s ∷ []) more)
      (Ran-executed p0 (execute k s p) k (jobs ++ s ∷ []) more (Ran-execute p0 p jobs k s r))
