-- ===== src/EventLoop/Order.antt =====
-- net/poller.rs and net/event_loop.rs: what `run` makes of the events of one `epoll_wait`.
use minifto.Common.{
  ℕ, ◌+◌, ◌-◌, ◌*◌, ◌%◌, ◌^◌, ◌≤◌, ◌≡◌, refl, sym, ◌∙◌, subst, false, ◌==◌, if◌then◌else◌, some,
  List, [], ◌∷◌, ◌++◌, map, append-nil, append_assoc, returns, length, drop, replicate, get_elem?,
  All, All-append, arith, Bool-cases, inl, inr, length-append, length-drop, length-replicate,
}
use mathlib.Core.List.Perm
use mathlib.Core.List.{Perm, perm_middle}
use minifto.Kernel.{EpollEvent}
use minifto.Poller.{Poller, poll, event, no_event}
use minifto.EventLoop.{
  EventLoop, Token, token, tokens, select, is_listen, is_notify, is_timer, order, is_listen_event,
  is_timer_event,
}

-- The events of the kernel, each with the kind of its descriptor.
abbrev pub seen : EventLoop → List EpollEvent → List (Token × ℕ)
seen l es = map (λ e. (token l (e.«data» % 2 ^ 32), e.events)) es

-- The listener's events are of the rank 0, those of the sessions of the rank 1, the timers' of 2.
abbrev pub rank : Token → ℕ
rank (Token.listen fd) = 0
rank (Token.notify fd) = 1
rank (Token.timer fd) = 2

-- No event stands behind one of a higher rank.
abbrev pub IsOrdered : List (Token × ℕ) → Type 0
IsOrdered [] = Unit
IsOrdered (e ∷ es) = All (λ f. rank e.0 ≤ rank f.0) es × IsOrdered es

-- The events of one kind.
abbrev Of : ℕ → List (Token × ℕ) → Type 0
Of n es = All (λ f. rank f.0 ≡ n) es

Of-le : (n k : ℕ) (es : List (Token × ℕ)) → k ≤ n → Of n es → All (λ f. k ≤ rank f.0) es
Of-le n k [] le h = tt
Of-le n k (e ∷ es) le h = (omega (arith, h.0), Of-le n k es le h.1)

Of-append_IsOrdered :
    (n : ℕ) (xs ys : List (Token × ℕ))
    → Of n xs
    → All (λ f. n ≤ rank f.0) ys
    → IsOrdered ys
    → IsOrdered (xs ++ ys)
Of-append_IsOrdered n [] ys hx hy o = o
Of-append_IsOrdered n (x ∷ xs) ys hx hy o = (
  subst (λ r. All (λ f. r ≤ rank f.0) (xs ++ ys)) (sym hx.0)
      (All-append (λ f. n ≤ rank f.0) xs ys (Of-le n n xs (omega arith) hx.1) hy),
  Of-append_IsOrdered n xs ys hx.1 hy o,
)

select-listen_Of : (es : List (Token × ℕ)) → Of 0 (select is_listen es)
select-listen_Of [] = tt
select-listen_Of ((Token.listen fd, r) ∷ es) = (refl, select-listen_Of es)
select-listen_Of ((Token.notify fd, r) ∷ es) = select-listen_Of es
select-listen_Of ((Token.timer fd, r) ∷ es) = select-listen_Of es

select-notify_Of : (es : List (Token × ℕ)) → Of 1 (select is_notify es)
select-notify_Of [] = tt
select-notify_Of ((Token.listen fd, r) ∷ es) = select-notify_Of es
select-notify_Of ((Token.notify fd, r) ∷ es) = (refl, select-notify_Of es)
select-notify_Of ((Token.timer fd, r) ∷ es) = select-notify_Of es

select-timer_Of : (es : List (Token × ℕ)) → Of 2 (select is_timer es)
select-timer_Of [] = tt
select-timer_Of ((Token.listen fd, r) ∷ es) = select-timer_Of es
select-timer_Of ((Token.notify fd, r) ∷ es) = select-timer_Of es
select-timer_Of ((Token.timer fd, r) ∷ es) = (refl, select-timer_Of es)

order-IsOrdered : (es : List (Token × ℕ)) → IsOrdered (order es)
unfolding order
order-IsOrdered es =
    let ls = select is_listen es in
    let ns = select is_notify es in
    let ts = select is_timer es in
    let t-Of = select-timer_Of es in
    let n-Of = select-notify_Of es in
    let ts-ordered : IsOrdered ts =
      subst IsOrdered (append-nil ts) (Of-append_IsOrdered 2 ts [] t-Of tt tt) in
    subst IsOrdered (sym (append_assoc ls ns ts)) (
      Of-append_IsOrdered 0 ls (ns ++ ts) (select-listen_Of es)
        (All-append (λ f. 0 ≤ rank f.0) ns ts (Of-le 1 0 ns (omega arith) n-Of)
          (Of-le 2 0 ts (omega arith) t-Of))
        (Of-append_IsOrdered 1 ns ts n-Of (Of-le 2 1 ts (omega arith) t-Of) ts-ordered))

order-Perm : (es : List (Token × ℕ)) → Perm (order es) es
unfolding order
order-Perm [] = Perm.rfl
order-Perm ((Token.listen fd, r) ∷ es) = Perm.cons _ (order-Perm es)
order-Perm ((Token.notify fd, r) ∷ es) =
    Perm.trans
      (Perm.append_right (select is_timer es)
        (perm_middle (select is_listen es) (select is_notify es)))
      (Perm.cons _ (order-Perm es))
order-Perm ((Token.timer fd, r) ∷ es) =
    Perm.trans (perm_middle (select is_listen es ++ select is_notify es) (select is_timer es))
      (Perm.cons _ (order-Perm es))

get_elem?-append :
    {A : Type 0} (pre : List A) (a : A) (post : List A)
    → get_elem? (pre ++ (a ∷ post)) (length pre) ≡ some a
get_elem?-append [] a post = refl
get_elem?-append (x ∷ pre) a post = get_elem?-append pre a post

-- The room holds the events `es` behind those of `pre`.
tokens-lem :
    (l : EventLoop) (pre es post : List EpollEvent)
    → l.poller.events ≡ pre ++ (es ++ post)
    → tokens l (length pre) (length es) ≡ returns (seen l es)
unfolding tokens event
tokens-lem l pre [] post e = refl
tokens-lem l pre (a ∷ es) post e =
    let here : get_elem? l.poller.events (length pre) ≡ some a =
      rw e (get_elem?-append pre a (es ++ post)) in
    let rest : tokens l (length pre + 1) (length es) ≡ returns (seen l es) =
      subst (λ n. tokens l n (length es) ≡ returns (seen l es)) (length-append pre (a ∷ []))
        (tokens-lem l (pre ++ (a ∷ [])) es post
          (e ∙ sym (append_assoc pre (a ∷ []) (es ++ post)))) in
    rw (here, rest) refl

-- The room after `poll`: the events stand in front of it.
poll-lem :
    (es : List EpollEvent) (p : Poller)
    → (q : Poller) × (post : List EpollEvent) × (poll (some es) p ≡ returns (q, length es))
      × (q.events ≡ es ++ post)
      × (length es ≤ length p.events
          → length q.events
            ≡ (if (length es == length p.events) then length p.events * 2 else length p.events))
unfolding poll
poll-lem [] p = (p, p.events, refl, refl, λ less. ground arith)
poll-lem (a ∷ es) p =
    let n = length (a ∷ es) in
    let held = (a ∷ es) ++ drop n p.events in
    let added = replicate (length held) no_event in
    let size : length held ≡ n + (length p.events - n) =
      omega (arith, length-append (a ∷ es) (drop n p.events), length-drop n p.events) in
    let nonzero : (n == 0) ≡ false = ground arith in
    elim (Bool-cases (n == length held)) [
      | inl full ↦ (
        record p { events = held ++ added },
        drop n p.events ++ added,
        rw (nonzero, full) refl,
        append_assoc (a ∷ es) (drop n p.events) added,
        λ less.
            let both : length (held ++ added) ≡ length held + length held =
              omega (arith, length-append held added, length-replicate (length held) no_event) in
            ground (arith, both, size, full, less),
      )
      | inr room ↦ (
        record p { events = held },
        drop n p.events,
        rw (nonzero, room) refl,
        refl,
        λ less. ground (arith, size, room, less),
      )
    ]

-- Whatever events the kernel answers with, `poll` returns, the loop of `run` reads every event of
-- the answer and no other, and the order in which the events are handed over is a permutation of
-- them in which the events of the listener stand before those of the sessions, and these before
-- those of the timers. If the kernel keeps to the room that it was given, the room is as large as
-- before, or twice as large if it was filled.
pub order-tokens :
    (l : EventLoop) (es : List EpollEvent)
    → (q : Poller) × (poll (some es) l.poller ≡ returns (q, length es))
      × (tokens (record l { poller = q }) 0 (length es) ≡ returns (seen l es))
      × Perm (order (seen l es)) (seen l es)
      × IsOrdered (order (seen l es))
      × (length es ≤ length l.poller.events
          → length q.events ≡ (
              if (length es == length l.poller.events)
              then length l.poller.events * 2
              else length l.poller.events))
order-tokens l es =
    let (q, post, run, front, room) = poll-lem es l.poller in
    (
      q,
      run,
      unfold token is_listen_event is_timer_event in
          tokens-lem (record l { poller = q }) [] es post front,
      order-Perm (seen l es),
      order-IsOrdered (seen l es),
      room,
    )
