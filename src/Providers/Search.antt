-- ===== src/Providers/Search.antt =====
-- The search of a loop's queue for a provider (tx_epoll.cpp, tx_kqueue.cpp, tx_timer.cpp), before and
-- after one has been created.
use libtx.Common.{
  ℕ, ◌≡◌, refl, ◌∙◌, true, false, ◌==◌, ==_refl, Option, none, some, List, [], ◌∷◌, if◌then◌else◌,
  arith, update,
}
use libtx.Loop.{
  TxTask, TxLoop, Ref, task, phony, tailer, flags_of, set_flags, insert_before_tailer, tx_task_init,
  tx_poll_active,
}
use libtx.Loop.Queues.{has, ends_tailer}
use libtx.Loop.Invariant.{Inv}
use libtx.Providers.{
  OpsTable, unset_ops, epoll_ops_table, kqueue_ops_table, completion_port_ops, Polls, ops_eq,
  or_else, find_call, existing, create, create_if, found_or, init_poller, tx_epoll_init,
}

ops_eq_refl : (o : OpsTable) → ops_eq o o ≡ true
ops_eq_refl unset_ops = refl
ops_eq_refl epoll_ops_table = refl
ops_eq_refl kqueue_ops_table = refl
ops_eq_refl completion_port_ops = refl

-- A new poller is the loop's `tx_poller`.
existing-create :
    (ops : OpsTable) (call p fd : ℕ) (s : Polls)
    → existing ops call (create ops call p fd s) ≡ some p
unfolding existing create
existing-create ops call p fd s = rw (==_refl p, ops_eq_refl ops) refl

-- What a search for the poller returns with the loop left as it is.
init-existing :
    (ops : OpsTable) (call q : ℕ) (alloc fd : Option ℕ) (s : Polls)
    → existing ops call s ≡ some q
    → init_poller ops call alloc fd s ≡ (some q, s)
unfolding init_poller
init-existing ops call q alloc fd s e = rw (e) refl

create_if-finds :
    (ops : OpsTable) (call q : ℕ) (alloc fd : Option ℕ) (s : Polls)
    → (create_if ops call alloc fd s).0 ≡ some q
    → existing ops call (create_if ops call alloc fd s).1 ≡ some q
create_if-finds ops call q (some p) (some n) s e = existing-create ops call p n s ∙ e
create_if-finds ops call q none fd s e = cc
create_if-finds ops call q (some p) none s e = cc

init-finds :
    (ops : OpsTable) (call q : ℕ) (alloc fd : Option ℕ) (s : Polls)
    → (init_poller ops call alloc fd s).0 ≡ some q
    → existing ops call (init_poller ops call alloc fd s).1 ≡ some q
unfolding init_poller
init-finds ops call q alloc fd s = finds (existing ops call s) refl
  where
    finds :
        (o : Option ℕ)
        → existing ops call s ≡ o
        → (found_or o s (create_if ops call alloc fd s)).0 ≡ some q
        → existing ops call (found_or o s (create_if ops call alloc fd s)).1 ≡ some q
    finds none z e = create_if-finds ops call q alloc fd s e
    finds (some r) z e = z ∙ e

-- `tx_epoll_init`, `tx_kqueue_init` and `tx_completion_port_init` are `init_poller` with their table.
-- Whatever memory and descriptors the second call gets, if the first call returns a poller then the
-- second returns the same one, and changes nothing.
pub init_poller-init_poller :
    (ops : OpsTable) (call q : ℕ) (alloc fd alloc' fd' : Option ℕ) (s : Polls)
    → (init_poller ops call alloc fd s).0 ≡ some q
    → init_poller ops call alloc' fd' (init_poller ops call alloc fd s).1
      ≡ (some q, (init_poller ops call alloc fd s).1)
init_poller-init_poller ops call q alloc fd alloc' fd' s e =
    init-existing ops call q alloc' fd' _ (init-finds ops call q alloc fd s e)

find-update :
    (call p : ℕ) (t : TxTask) (m : ℕ → TxTask) (xs : List Ref)
    → has (task p) xs ≡ false
    → find_call call (update m p t) xs ≡ find_call call m xs
unfolding find_call
find-update call p t m [] h = refl
find-update call p t m (task q ∷ xs) h = ground (arith, find-update call p t m xs)
find-update call p t m (phony ∷ xs) h = find-update call p t m xs h
find-update call p t m (tailer ∷ xs) h = find-update call p t m xs h

find-insert :
    (call p : ℕ) (m : ℕ → TxTask) (xs : List Ref)
    → ends_tailer xs ≡ true
    → find_call call m (insert_before_tailer (task p) xs)
      ≡ or_else (find_call call m xs) (if (m p).tx_call == call then some p else none)
unfolding find_call insert_before_tailer
find-insert call p m [] e = cc
find-insert call p m (task q ∷ xs) e = ground (arith, find-insert call p m xs e)
find-insert call p m (phony ∷ xs) e = find-insert call p m xs e
find-insert call p m (tailer ∷ []) e = refl
find-insert call p m (tailer ∷ x ∷ xs) e = cc

-- What `tx_poll_active` does with an idle task of a running loop.
active-idle :
    (p : ℕ) (l : TxLoop)
    → l.tx_stop ≡ false
    → (flags_of l p).idle ≡ true
    → tx_poll_active p l
      ≡ set_flags p
          (record (flags_of l p) { idle = false })
          (record l { tx_taskq = insert_before_tailer (task p) l.tx_taskq })
unfolding tx_poll_active
active-idle p l run i = rw (run, i) refl

find-active :
    (call p : ℕ) (l : TxLoop)
    → ends_tailer l.tx_taskq ≡ true
    → has (task p) l.tx_taskq ≡ false
    → l.tx_stop ≡ false
    → (flags_of l p).idle ≡ true
    → find_call call (tx_poll_active p l).tasks (tx_poll_active p l).tx_taskq
      ≡ or_else
          (find_call call l.tasks l.tx_taskq)
          (if (l.tasks p).tx_call == call then some p else none)
find-active call p l e h run i =
    let t = record (l.tasks p) { tx_flags = record (flags_of l p) { idle = false } } in
    rw (active-idle p l run i) (
      find-insert call p (update l.tasks p t) l.tx_taskq e
      ∙ rw (find-update call p t l.tasks l.tx_taskq h, ==_refl p) refl)

-- The search after a new poll `p` with the call `c` has been put into the queue of a running loop.
pub find-register :
    (call c p d : ℕ) (l : TxLoop)
    → ends_tailer l.tx_taskq ≡ true
    → has (task p) l.tx_taskq ≡ false
    → l.tx_stop ≡ false
    → find_call call
        (tx_poll_active p (tx_task_init p c d l)).tasks
        (tx_poll_active p (tx_task_init p c d l)).tx_taskq
      ≡ or_else (find_call call l.tasks l.tx_taskq) (if c == call then some p else none)
unfolding tx_task_init
find-register call c p d l e h run =
    find-active call p (tx_task_init p c d l) e h run (ground arith)
    ∙ rw (find-update call p _ l.tasks l.tx_taskq h, ==_refl p) refl

-- The poll of a poller that is created comes last, so the search for another poll that was there
-- before finds the same.
find-create :
    (ops : OpsTable) (call c p fd q : ℕ) (s : Polls)
    → Inv s.loop
    → has (task p) s.loop.tx_taskq ≡ false
    → s.loop.tx_stop ≡ false
    → find_call call s.loop.tasks s.loop.tx_taskq ≡ some q
    → find_call call (create ops c p fd s).loop.tasks (create ops c p fd s).loop.tx_taskq ≡ some q
unfolding create
find-create ops call c p fd q s v h run e =
    find-register call c p p s.loop v.queues.ends h run ∙ rw (e) refl

create_if-find :
    (ops : OpsTable) (call c q : ℕ) (alloc fd : Option ℕ) (s : Polls)
    → Inv s.loop
    → ((p : ℕ) → alloc ≡ some p → has (task p) s.loop.tx_taskq ≡ false)
    → s.loop.tx_stop ≡ false
    → find_call call s.loop.tasks s.loop.tx_taskq ≡ some q
    → find_call call
        (create_if ops c alloc fd s).1.loop.tasks
        (create_if ops c alloc fd s).1.loop.tx_taskq
      ≡ some q
create_if-find ops call c q (some p) (some n) s v h run e =
    find-create ops call c p n q s v (h p refl) run e
create_if-find ops call c q none fd s v h run e = e
create_if-find ops call c q (some p) none s v h run e = e

-- If the poll with the call `call` is the first that a search finds in the queue of a running loop
-- that satisfies the invariant, and memory that is allocated is in no queue, then a call of
-- `tx_epoll_init` does not change what the search finds.
pub find-epoll_init :
    (call c q : ℕ) (alloc fd : Option ℕ) (s : Polls)
    → Inv s.loop
    → ((p : ℕ) → alloc ≡ some p → has (task p) s.loop.tx_taskq ≡ false)
    → s.loop.tx_stop ≡ false
    → find_call call s.loop.tasks s.loop.tx_taskq ≡ some q
    → find_call call
        (tx_epoll_init c alloc fd s).1.loop.tasks
        (tx_epoll_init c alloc fd s).1.loop.tx_taskq
      ≡ some q
unfolding tx_epoll_init init_poller
find-epoll_init call c q alloc fd s v h run e = found_case (existing epoll_ops_table c s)
  where
    found_case :
        (o : Option ℕ)
        → find_call call
            (found_or o s (create_if epoll_ops_table c alloc fd s)).1.loop.tasks
            (found_or o s (create_if epoll_ops_table c alloc fd s)).1.loop.tx_taskq
          ≡ some q
    found_case none = create_if-find epoll_ops_table call c q alloc fd s v h run e
    found_case (some r) = e
