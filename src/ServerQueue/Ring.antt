-- ===== src/ServerQueue/Ring.antt =====
-- The circular array of the client queue as a first-in first-out list.
use mathlib.Core.Path.{subst}
use hw.Prelude.{
  ℕ, zero, suc, ◌+◌, ◌-◌, ◌%◌, ◌≤◌, ◌<◌, ◌≡◌, ◌≢◌, refl, ap, ◌∙◌, List, [], ◌∷◌, ◌++◌, some, arith,
  length, get_elem?, set, length-set, get_or,
}
use hw.ServerQueue.{
  ClientQueue, client_queue, queue_size, init_queue, add_to_queue, remove_from_queue,
}

-- The `k` sockets from index `f` on, round the end of the array.
unfoldable pub window : List ℕ → ℕ → ℕ → List ℕ
window xs f zero = []
window xs f (suc k) = get_or xs f 0 ∷ window xs ((f + 1) % queue_size) k

-- The clients that wait, the one to be served next first.
unfoldable pub contents : ClientQueue → List ℕ
contents q = window q.queue q.front q.count

pub record IsRing (q : ClientQueue) : Type 0 where
  pub size : length q.queue ≡ queue_size
  pub front_in : q.front < queue_size
  pub count_in : q.count ≤ queue_size
  pub rear_at : q.rear ≡ (q.front + q.count) % queue_size

get_elem?-some : (xs : List ℕ) (i : ℕ) → i < length xs → get_elem? xs i ≡ some (get_or xs i 0)
get_elem?-some [] i h = elim h [ ]
get_elem?-some (x ∷ xs) zero h = refl
get_elem?-some (x ∷ xs) (suc i) h = get_elem?-some xs i (omega arith)

get_or-set_self : (xs : List ℕ) (i v : ℕ) → i < length xs → get_or (set xs i v) i 0 ≡ v
get_or-set_self [] i v h = elim h [ ]
get_or-set_self (x ∷ xs) zero v h = refl
get_or-set_self (x ∷ xs) (suc i) v h = get_or-set_self xs i v (omega arith)

get_or-set_ne : (xs : List ℕ) (i j v : ℕ) → i ≢ j → get_or (set xs i v) j 0 ≡ get_or xs j 0
get_or-set_ne [] i j v h = refl
get_or-set_ne (x ∷ xs) zero zero v h = absurd (h refl)
get_or-set_ne (x ∷ xs) zero (suc j) v h = refl
get_or-set_ne (x ∷ xs) (suc i) zero v h = refl
get_or-set_ne (x ∷ xs) (suc i) (suc j) v h = get_or-set_ne xs i j v (λ e. h (ap suc e))

-- A store at the end of a window that is not full lengthens it.
window-set :
    (xs : List ℕ) (f k r v : ℕ)
    → length xs ≡ queue_size
    → f < queue_size
    → k < queue_size
    → r ≡ (f + k) % queue_size
    → window (set xs r v) f (suc k) ≡ window xs f k ++ (v ∷ [])
unfolding window
window-set xs f zero r v len fin kin e =
    let r-eq : r ≡ f = omega arith in
    rw r-eq (ap (λ x. x ∷ []) (get_or-set_self xs f v (omega arith)))
window-set xs f (suc k) r v len fin kin e =
    let tail =
      window-set xs ((f + 1) % queue_size) k r v len (omega arith) (omega arith) (omega arith) in
    rw (get_or-set_ne xs r f v (omega arith)) (ap (λ t. get_or xs f 0 ∷ t) tail)

pub contents-init : (q : ClientQueue) → contents (init_queue q) ≡ []
unfolding contents window init_queue
contents-init q = refl

pub contents_empty : (q : ClientQueue) → q.count ≡ 0 → contents q ≡ []
unfolding contents window
contents_empty q e = rw (e, window)

pub init-IsRing : IsRing (init_queue client_queue)
unfolding init_queue
init-IsRing = omega arith

-- In a well-formed queue that is not full, adding a socket stores in bounds, puts the socket
-- behind those that wait, and leaves the queue well formed.
pub contents-add :
    (q : ClientQueue) (fd : ℕ)
    → IsRing q
    → q.count ≢ queue_size
    → (q' : ClientQueue) × (add_to_queue q fd ≡ some q')
      × IsRing q'
      × (contents q' ≡ contents q ++ (fd ∷ []))
      × (q'.count ≡ q.count + 1)
unfolding add_to_queue contents
contents-add q fd ring room = (
  record q { queue = set q.queue q.rear fd; rear = (q.rear + 1) % queue_size; count = q.count + 1 },
  ground (arith),
  record {
    size = length-set q.queue q.rear fd ∙ ring.size;
    front_in = ring.front_in;
    count_in = omega arith;
    rear_at = omega arith;
  },
  (let e : q.count + 1 ≡ suc q.count = omega arith in
      rw e (
        window-set q.queue q.front q.count q.rear fd ring.size ring.front_in (omega arith)
          ring.rear_at)),
  refl,
)

window-front :
    (xs : List ℕ) (f c : ℕ)
    → c ≢ 0
    → window xs f c ≡ get_or xs f 0 ∷ window xs ((f + 1) % queue_size) (c - 1)
unfolding window
window-front xs f zero h = absurd (h refl)
window-front xs f (suc c) h =
    ap (λ k. get_or xs f 0 ∷ window xs ((f + 1) % queue_size) k) (omega arith)

-- In a well-formed queue that is not empty, removing loads in bounds, returns the socket that
-- has waited longest, and leaves the others in order and the queue well formed.
pub contents-remove :
    (q : ClientQueue)
    → IsRing q
    → q.count ≢ 0
    → (fd : ℕ) × (q' : ClientQueue) × (remove_from_queue q ≡ some (fd, q'))
      × IsRing q'
      × (contents q ≡ fd ∷ contents q')
      × (q'.count + 1 ≡ q.count)
unfolding remove_from_queue contents
contents-remove q ring some_wait = (
  get_or q.queue q.front 0,
  record q { front = (q.front + 1) % queue_size; count = q.count - 1 },
  rw (get_elem?-some q.queue q.front (omega arith), remove_from_queue),
  omega arith,
  window-front q.queue q.front q.count some_wait,
  omega arith,
)

-- The same for a call whose result is at hand.
pub add_result :
    (q : ClientQueue) (fd : ℕ) {q' : ClientQueue}
    → IsRing q
    → q.count ≢ queue_size
    → add_to_queue q fd ≡ some q'
    → IsRing q' × (contents q' ≡ contents q ++ (fd ∷ [])) × (q'.count ≡ q.count + 1)
add_result q fd {q'} ring room e =
    let (r, re, ok, c, k) = contents-add q fd ring room in
    let same : r ≡ q' = cc in
    subst (λ t. IsRing t × (contents t ≡ contents q ++ (fd ∷ [])) × (t.count ≡ q.count + 1)) same
      (ok, c, k)

pub remove_result :
    (q : ClientQueue) {fd : ℕ} {q' : ClientQueue}
    → IsRing q
    → q.count ≢ 0
    → remove_from_queue q ≡ some (fd, q')
    → IsRing q' × (contents q ≡ fd ∷ contents q') × (q'.count + 1 ≡ q.count)
remove_result q {fd} {q'} ring waits e =
    let (f, r, re, ok, c, k) = contents-remove q ring waits in
    let same_fd : f ≡ fd = cc in
    let same : r ≡ q' = cc in
    subst (λ t. IsRing t × (contents q ≡ fd ∷ contents t) × (t.count + 1 ≡ q.count)) same
      (ok, c ∙ ap (λ a. a ∷ contents r) same_fd, k)
