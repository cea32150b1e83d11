-- ===== src/HandleClass.antt =====
-- The counted pointers of include/common/HandleClass.h: objects that count the handles that point to
-- them, and the handles of a program, numbered. A handle that is not constructed is `none`. The
-- objects are those whose destructors release no handles of their own.
pub mod Counted
pub mod History
use kadpeer.Prelude.{
  ℕ, ◌+◌, ◌-◌, ◌%◌, ◌^◌, Bool, true, false, not, ◌&&◌, ◌||◌, Option, none, some, List, [], ◌∷◌, ltb,
  ◌==◌, if◌then◌else◌,
}
use kadpeer.Threads.{put}
use kadpeer.Heap.{Ptr, null, read, write, load}
use kadpeer.Outcome.{Outcome, done, undefined, out_of_fuel, ◌>>=◌, access}

-- An `Object` is its `refCount`.
abbrev pub Objects : Type 0
Objects = List (Ptr × Option ℕ)

-- The objects, and the `pointee` of each handle.
pub record Program : Type 0 where
  pub objects : Objects
  pub pointee : ℕ → Option Ptr

-- `++refCount`, an `unsigned int`
unfoldable pub add_reference : Objects → Ptr → Outcome Objects
add_reference h p = load h p >>= λ n. done (write h p (some ((n + 1) % 2 ^ 32)))

-- `if( 0 == --refCount ) delete this`
unfoldable pub remove_reference : Objects → Ptr → Outcome Objects
remove_reference h p = load h p >>= λ n.
    let m = (n + 2 ^ 32 - 1) % 2 ^ 32 in done (write h p (if m == 0 then none else some m))

-- `HandlePtr::init`
unfoldable pub init : Objects → Ptr → Outcome Objects
init h p = if p == null then done h else add_reference h p

-- `if(pointee != 0) pointee->removeReference()`
unfoldable pub release : Objects → Ptr → Outcome Objects
release h p = if p == null then done h else remove_reference h p

-- `HandlePtr(T* realPtr)`
unfoldable pub construct : ℕ → Ptr → Program → Outcome Program
construct i p s =
    init s.objects p >>= λ h. done record { objects = h; pointee = put s.pointee i (some p) }

-- `HandlePtr(const HandlePtr& rhs)`
unfoldable pub copy : ℕ → ℕ → Program → Outcome Program
copy i j s = access (s.pointee j) >>= λ p. construct i p s

-- `HandlePtr(new T)`: a new object counts 0.
unfoldable pub construct_new : (Objects → Ptr) → ℕ → Program → Outcome Program
construct_new alloc i s =
    let p = alloc s.objects in construct i p (record s { objects = write s.objects p (some 0) })

-- `~HandlePtr()`
unfoldable pub destroy : ℕ → Program → Outcome Program
destroy i s = access (s.pointee i) >>= λ p.
    release s.objects p >>= λ h. done record { objects = h; pointee = put s.pointee i none }

-- The body of the `if` of `operator=`.
unfoldable pub repoint : ℕ → Ptr → Ptr → Program → Outcome Program
repoint i p q s = release s.objects p >>= λ h.
    init h q >>= λ g. done record { objects = g; pointee = put s.pointee i (some q) }

-- `operator=(const HandlePtr& rhs)`
unfoldable pub assign : ℕ → ℕ → Program → Outcome Program
assign i j s = access (s.pointee i) >>= λ p.
    access (s.pointee j) >>= λ q. if p == q then done s else repoint i p q s

-- `clear`: the assignment from a temporary handle of the null pointer, whose end releases nothing.
unfoldable pub clear : ℕ → Program → Outcome Program
clear i s = access (s.pointee i) >>= λ p. if p == null then done s else repoint i p null s

-- What a program does with its handles.
pub data Action : Type 0 where
  handle_new : ℕ → Action
  handle_pointer : ℕ → Ptr → Action
  handle_copy : ℕ → ℕ → Action
  handle_end : ℕ → Action
  handle_assign : ℕ → ℕ → Action
  handle_clear : ℕ → Action

unfoldable pub act : (Objects → Ptr) → Action → Program → Outcome Program
act alloc (handle_new i) s = construct_new alloc i s
act alloc (handle_pointer i p) s = construct i p s
act alloc (handle_copy i j) s = copy i j s
act alloc (handle_end i) s = destroy i s
act alloc (handle_assign i j) s = assign i j s
act alloc (handle_clear i) s = clear i s

abbrev pub is_some {ℓ} : {A : Type ℓ} → Option A → Bool
is_some none = false
is_some (some a) = true

-- The rules of the language for the first `n` handles: one that is used is constructed, one that is
-- constructed was not before, and a pointer is null or points to an object.
unfoldable pub allowed : ℕ → Action → Program → Bool
allowed n (handle_new i) s = ltb i n && not (is_some (s.pointee i))
allowed n (handle_pointer i p) s =
    ltb i n && (not (is_some (s.pointee i)) && (p == null || is_some (read s.objects p)))
allowed n (handle_copy i j) s =
    ltb i n && (not (is_some (s.pointee i)) && (ltb j n && is_some (s.pointee j)))
allowed n (handle_end i) s = ltb i n && is_some (s.pointee i)
allowed n (handle_assign i j) s =
    ltb i n && (is_some (s.pointee i) && (ltb j n && is_some (s.pointee j)))
allowed n (handle_clear i) s = ltb i n && is_some (s.pointee i)

unfoldable pub acts : (Objects → Ptr) → List Action → Program → Outcome Program
acts alloc [] s = done s
acts alloc (a ∷ as_) s = act alloc a s >>= acts alloc as_

-- A program that keeps the rules in each of its actions.
unfoldable pub all_allowed : (Objects → Ptr) → ℕ → List Action → Program → Bool
all_allowed alloc n [] s = true
all_allowed alloc n (a ∷ as_) s = allowed n a s && elim (act alloc a s) [
  | done t ↦ all_allowed alloc n as_ t
  | undefined ↦ true
  | out_of_fuel ↦ true
]
