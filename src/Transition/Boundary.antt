-- ===== src/Transition/Boundary.antt =====
-- A reload is refused exactly when a field of the startup boundary changes.
use rginx.Prelude.{
  ℕ, ◌≡◌, ◌≢◌, refl, ap, sym, ◌∙◌, ◌↔◌, inl, inr, Bool, true, false, Option, none, some, List, [],
  ◌∷◌, ◌++◌, is_empty, ◌==◌, ==_iff, bytes_eq_iff, bytes_eq_refl, Map, get, ok, arith, Bool-cases,
  All, ◌&&◌,
}
use rginx.Transition.{
  SocketAddr, Listener, ConfigSnapshot, addr_eq, pair_eq, option_eq, next_by_id, listener_changes,
  all_listener_changes, runtime_changes, plan_config_transition, validate_config_transition,
}

is_empty-append : {A : Type 0} (xs ys : List A) → is_empty (xs ++ ys) ≡ is_empty xs && is_empty ys
is_empty-append [] ys = refl
is_empty-append (x ∷ xs) ys = refl

and_true : (a b : Bool) → a && b ≡ true → (a ≡ true) × (b ≡ true)
and_true a b h = ground arith

and_intro : (a b : Bool) → a ≡ true → b ≡ true → a && b ≡ true
and_intro a b h k = ground arith

pair_eq_iff : (a b : ℕ × ℕ) → (pair_eq a b ≡ true) ↔ (a ≡ b)
pair_eq_iff (a, c) (b, d) = (
  λ h. let e : a ≡ b = ground arith in let f : c ≡ d = ground arith in λ i. (e i, f i),
  λ e. let f : a ≡ b = ap (λ (x, y). x) e in let g : c ≡ d = ap (λ (x, y). y) e in ground arith,
)

option_pair_iff : (a b : Option (ℕ × ℕ)) → (option_eq pair_eq a b ≡ true) ↔ (a ≡ b)
option_pair_iff none none = ground arith
option_pair_iff (some a) (some b) = ground (arith, pair_eq_iff a b)
option_pair_iff none (some b) = ground arith
option_pair_iff (some a) none = ground arith

addr_eq_iff : (a b : SocketAddr) → (addr_eq a b ≡ true) ↔ (a ≡ b)
addr_eq_iff a b = (
  λ h.
      let o : a.octets ≡ b.octets = (bytes_eq_iff a.octets b.octets).0 (ground arith) in
      let p : a.port ≡ b.port = ground arith in
      let f : a.flowinfo_scope ≡ b.flowinfo_scope =
        (option_pair_iff a.flowinfo_scope b.flowinfo_scope).0 (ground arith) in
      λ i. record { octets = o i; port = p i; flowinfo_scope = f i },
  λ e. rw e (
      ground (
        arith,
        bytes_eq_refl b.octets,
        (option_pair_iff b.flowinfo_scope b.flowinfo_scope).1 refl,
      )),
)

option_addr_iff : (a b : Option SocketAddr) → (option_eq addr_eq a b ≡ true) ↔ (a ≡ b)
option_addr_iff none none = ground arith
option_addr_iff (some a) (some b) = ground (arith, addr_eq_iff a b)
option_addr_iff none (some b) = ground arith
option_addr_iff (some a) none = ground arith

option_nat_iff : (a b : Option ℕ) → (option_eq (λ x y. x == y) a b ≡ true) ↔ (a ≡ b)
option_nat_iff none none = ground arith
option_nat_iff (some a) (some b) = ground (arith, ==_iff a b)
option_nat_iff none (some b) = ground arith
option_nat_iff (some a) none = ground arith

-- A listener that the next configuration does not drop keeps its two addresses.
abbrev pub Keeps : Listener → Option Listener → Type 0
Keeps l none = Unit
Keeps l (some n) = (l.listen_addr ≡ n.listen_addr) × (l.http3 ≡ n.http3)

listener_changes_iff :
    (l : Listener) (o : Option Listener) → (is_empty (listener_changes l o) ≡ true) ↔ Keeps l o
unfolding listener_changes
listener_changes_iff l none = ground arith
listener_changes_iff l (some n) =
    ground (arith, addr_eq_iff l.listen_addr n.listen_addr, option_addr_iff l.http3 n.http3)

all_listener_changes_iff :
    (next : Map Listener) (ls : List Listener)
    → (is_empty (all_listener_changes next ls) ≡ true) ↔ All (λ l. Keeps l (get next l.id)) ls
unfolding all_listener_changes
all_listener_changes_iff next [] = ground arith
all_listener_changes_iff next (l ∷ ls) = ground (
  arith,
  is_empty-append (listener_changes l (get next l.id)) (all_listener_changes next ls),
  listener_changes_iff l (get next l.id),
  all_listener_changes_iff next ls,
)

runtime_changes_iff :
    (current next : ConfigSnapshot)
    → (is_empty (runtime_changes current next) ≡ true) ↔ (
        (current.worker_threads ≡ next.worker_threads)
        × (current.accept_workers ≡ next.accept_workers))
unfolding runtime_changes
runtime_changes_iff current next =
    ground (arith, option_nat_iff current.worker_threads next.worker_threads)

-- Nothing at the startup boundary differs: each listener whose id the next configuration has keeps the
-- addresses it listens on, and the runtime keeps its numbers of threads and of accept workers.
pub record Reloadable (current next : ConfigSnapshot) : Type 0 where
  pub listeners : All (λ (l : Listener). Keeps l (get (next_by_id next) l.id)) current.listeners
  pub worker_threads : current.worker_threads ≡ next.worker_threads
  pub accept_workers : current.accept_workers ≡ next.accept_workers

changes_iff :
    (current next : ConfigSnapshot)
    → (is_empty
          (all_listener_changes (next_by_id next) current.listeners ++ runtime_changes current next)
        ≡ true)
      ↔ Reloadable current next
changes_iff current next =
    let split =
      is_empty-append (all_listener_changes (next_by_id next) current.listeners)
        (runtime_changes current next) in
    let ls = all_listener_changes_iff (next_by_id next) current.listeners in
    let rt = runtime_changes_iff current next in
    (
      λ h.
          let both = and_true _ _ (sym split ∙ h) in
          let r = rt.0 both.1 in
          record { listeners = ls.0 both.0; worker_threads = r.0; accept_workers = r.1 },
      λ k. split ∙ and_intro _ _ (ls.1 k.listeners) (rt.1 (k.worker_threads, k.accept_workers)),
    )

-- A configuration is accepted for a reload exactly when each listener whose id it still has keeps the
-- addresses it listens on, and the numbers of threads and of accept workers are the same.
pub validate_config_transition_iff :
    (current next : ConfigSnapshot)
    → (validate_config_transition current next ≡ ok tt) ↔ Reloadable current next
unfolding validate_config_transition plan_config_transition
validate_config_transition_iff current next =
    elim (Bool-cases (
      is_empty (
        all_listener_changes (next_by_id next) current.listeners
        ++ runtime_changes current next))) [
          | inl e ↦
              (λ _. (changes_iff current next).0 e, λ _. rw (e, validate_config_transition) refl)
          | inr e ↦ (
            λ h. absurd (refused e h),
            λ k. let kept = (changes_iff current next).1 k in absurd (cc),
          )
        ]
  where
    refused :
        is_empty (
            all_listener_changes (next_by_id next) current.listeners
            ++ runtime_changes current next)
          ≡ false
        → validate_config_transition current next ≢ ok tt
    refused e = rw (e, validate_config_transition) (λ h. absurd (cc))
