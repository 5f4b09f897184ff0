-- ===== src/IoManager/Room.antt =====
-- The room that `contextResize` of src/async/iomanager.cpp makes.
use cpp_server_framework.Prelude.{
  ℕ, zero, suc, ◌+◌, ◌-◌, ◌/◌, ◌≤◌, ◌<◌, ◌≡◌, refl, ap, false, List, [], ◌∷◌, ◌++◌, length,
  length-append, get_elem?, none, some, All, arith,
}
use cpp_server_framework.IoManager.{
  Event, FdContext, IoManager, read, write, has, new_fd_context, new_contexts, context_resize,
}
use cpp_server_framework.IoManager.Contexts.{
  IsFdContext, IsValid, idle, all_awaited-append, all_awaited-new,
}

-- The contexts that a resize makes are idle.
new_contexts-IsFdContext : (fd n : ℕ) → All IsFdContext (new_contexts fd n)
new_contexts-IsFdContext fd zero = tt
new_contexts-IsFdContext fd (suc n) = (
  record { read_ok = idle refl refl; write_ok = idle refl refl },
  new_contexts-IsFdContext (suc fd) n,
)

IsFdContext-append :
    (cs ds : List FdContext) → All IsFdContext cs → All IsFdContext ds → All IsFdContext (cs ++ ds)
IsFdContext-append [] ds a b = b
IsFdContext-append (c ∷ cs) ds a b = (a.0, IsFdContext-append cs ds a.1 b)

pub get_elem?-new :
    (cs : List FdContext) (k n i : ℕ)
    → length cs ≤ i
    → i < length cs + n
    → (j : ℕ) × (get_elem? (cs ++ new_contexts k n) i ≡ some (new_fd_context j))
get_elem?-new [] k zero i lo hi = absurd (omega arith)
get_elem?-new [] k (suc n) zero lo hi = (k, refl)
get_elem?-new [] k (suc n) (suc i) lo hi = get_elem?-new [] (suc k) n i (omega arith) (omega arith)
get_elem?-new (c ∷ cs) k n zero lo hi = absurd (omega arith)
get_elem?-new (c ∷ cs) k n (suc i) lo hi = get_elem?-new cs k n i (omega arith) (omega arith)

pub get_elem?-some :
    (cs : List FdContext) (i : ℕ) → i < length cs → (c : FdContext) × (get_elem? cs i ≡ some c)
get_elem?-some [] i h = absurd (omega arith)
get_elem?-some (c ∷ cs) zero h = (c, refl)
get_elem?-some (c ∷ cs) (suc i) h = get_elem?-some cs i (omega arith)

length-new : (k n : ℕ) → length (new_contexts k n) ≡ n
length-new k zero = refl
length-new k (suc n) = ap suc (length-new (suc k) n)

abbrev pub resized : ℕ → IoManager → IoManager
resized fd m = record m { fd_contexts = context_resize (fd + fd / 2) m.fd_contexts }

pub resized-IsValid : (fd : ℕ) (m : IoManager) → IsValid m → IsValid (resized fd m)
resized-IsValid fd m v =
    let k = length m.fd_contexts in
    let n = fd + fd / 2 - k in
    record {
      contexts_ok =
          IsFdContext-append m.fd_contexts (new_contexts k n) v.contexts_ok
            (new_contexts-IsFdContext k n);
      counted = omega (
        arith,
        v.counted,
        all_awaited-append m.fd_contexts (new_contexts k n),
        all_awaited-new k n,
      );
      sized = omega (arith, length-append m.fd_contexts (new_contexts k n), v.sized);
    }

pub get_elem?_past : (cs : List FdContext) (i : ℕ) → length cs ≤ i → get_elem? cs i ≡ none
get_elem?_past [] i h = refl
get_elem?_past (c ∷ cs) zero h = absurd (omega (arith, h))
get_elem?_past (c ∷ cs) (suc i) h = get_elem?_past cs i (omega (arith, h))

pub new-has : (e : Event) (j : ℕ) → has (new_fd_context j).events e ≡ false
new-has read j = refl
new-has write j = refl
