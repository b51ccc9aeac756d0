-- ===== src/Sync/Queue.antt =====
-- `SyncQueue` of crates/lib/src/sync/queue.rs: the entries that wait to be sent, by peer. The calls are
-- made one at a time, under the queue's mutex.
use eidetica.Base.{
  ℕ, ◌+◌, String, List, [], ◌∷◌, ◌++◌, Bool, if◌then◌else◌, str_eq, length, length-append, ◌≡◌,
  refl, arith, ap, ◌∙◌, Bool-cases, inl, inr,
}
use eidetica.Entry.{is_empty_list}
use eidetica.Backend.Assoc.{find, change, or_default, find-change}

-- an entry and its tree
abbrev pub Queued : Type 0
Queued = String × String

abbrev pub Queues : Type 0
Queues = List (String × List Queued)

abbrev pub new : Queues
new = []

unfoldable pub enqueue : String → Queued → Queues → Queues
unfolding change
enqueue peer e q = change peer [] (λ es. es ++ (e ∷ [])) q

-- `mem::take`
abbrev pub drain : Queues → Queues × Queues
drain q = (q, [])

abbrev pub is_empty : Queues → Bool
is_empty q = is_empty_list q

unfoldable pub len : Queues → ℕ
len [] = 0
len ((peer, es) ∷ q) = length es + len q

abbrev pub peer_count : Queues → ℕ
peer_count q = length q

-- what waits for a peer
abbrev pub waiting : String → Queues → List Queued
waiting peer q = or_default [] (find peer q)

waiting-enqueue :
    (peer other : String) (e : Queued) (q : Queues)
    → waiting other (enqueue peer e q)
      ≡ (if str_eq peer other then waiting other q ++ (e ∷ []) else waiting other q)
unfolding enqueue
waiting-enqueue peer other e q = ground (arith, find-change peer other [] (λ es. es ++ (e ∷ [])) q)

len-enqueue : (peer : String) (e : Queued) (q : Queues) → len (enqueue peer e q) ≡ len q + 1
unfolding len enqueue change
len-enqueue peer e [] = refl
len-enqueue peer e ((other, es) ∷ q) =
    ground (arith, len-enqueue peer e q, length-append es (e ∷ []))

-- the calls of several users of the queue, in the order in which they got the mutex
unfoldable pub enqueue_all : List (String × Queued) → Queues → Queues
unfolding enqueue
enqueue_all [] q = q
enqueue_all ((peer, e) ∷ calls) q = enqueue_all calls (enqueue peer e q)

abbrev pub sent_to : String → List (String × Queued) → List Queued
sent_to peer [] = []
sent_to peer ((to, e) ∷ calls) =
    let rest = sent_to peer calls in if str_eq to peer then e ∷ rest else rest

append_none : (a : List Queued) → a ≡ a ++ []
append_none [] = refl
append_none (x ∷ a) = ap (λ r. x ∷ r) (append_none a)

append_assoc_one : (a c : List Queued) (e : Queued) → (a ++ (e ∷ [])) ++ c ≡ a ++ (e ∷ c)
append_assoc_one [] c e = refl
append_assoc_one (x ∷ a) c e = ap (λ r. x ∷ r) (append_assoc_one a c e)

-- After any calls of `enqueue`, `drain` answers for each peer with what waited for it before and then
-- the entries that were put there for it, each once and in the order of the calls; `len` counts all
-- of them.
pub drain-enqueue_all :
    (calls : List (String × Queued)) (q : Queues) (peer : String)
    → (waiting peer (drain (enqueue_all calls q)).0 ≡ waiting peer q ++ sent_to peer calls)
      × (len (enqueue_all calls q) ≡ len q + length calls)
unfolding enqueue_all len
drain-enqueue_all [] q peer = (append_none (waiting peer q), omega arith)
drain-enqueue_all ((to, e) ∷ calls) q peer =
    let (all, count) = drain-enqueue_all calls (enqueue to e q) peer in
    (
      all ∙ elim (Bool-cases (str_eq to peer)) [
        | inl y ↦ rw y (
            ap (λ a. a ++ sent_to peer calls) (waiting-enqueue to peer e q ∙ rw y refl)
            ∙ append_assoc_one (waiting peer q) (sent_to peer calls) e)
        | inr n ↦ rw n (ap (λ a. a ++ sent_to peer calls) (waiting-enqueue to peer e q ∙ rw n refl))
      ],
      omega (arith, len-enqueue to e q),
    )
