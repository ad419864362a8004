-- ===== src/Notifier/Registry.antt =====
-- Backend/src/notifications/notifier.js: the names in the registry.
use devops_hackathon.Prelude.{
  ◌≡◌, inl, inr, Bool, false, Option, none, some, List, [], ◌∷◌, ◌++◌, All, Bool-cases, subst,
  All-append, or_default,
}
use devops_hackathon.Notifier.{
  Notifier, Candidate, register, unregister, register_named, register_checked, Sending,
}
use devops_hackathon.Incident.{IncidentEvent, Payload}
use Prim.Native.String.{String}
use text.Mathlib.Text.{◌==◌ as str_eq}

-- The names in order.
abbrev pub list : List Notifier → List String
list [] = []
list (n ∷ ns) = n.name ∷ list ns

-- No name occurs twice.
abbrev pub OneEach : List Notifier → Type 0
OneEach [] = Unit
OneEach (n ∷ ns) = All (λ k. str_eq n.name k.name ≡ false) ns × OneEach ns

unregister-All :
    (P : Notifier → Type 0) (name : String) (ns : List Notifier)
    → All P ns
    → All P (unregister name ns)
unfolding unregister
unregister-All P name [] h = tt
unregister-All P name (n ∷ ns) (h, hs) = elim (Bool-cases (str_eq n.name name)) [
  | inl e ↦ rw e (unregister-All P name ns hs)
  | inr e ↦ rw e (h, unregister-All P name ns hs)
]

unregister-absent :
    (name : String) (ns : List Notifier)
    → All (λ k. str_eq k.name name ≡ false) (unregister name ns)
unfolding unregister
unregister-absent name [] = tt
unregister-absent name (n ∷ ns) = elim (Bool-cases (str_eq n.name name)) [
  | inl e ↦ rw e (unregister-absent name ns)
  | inr e ↦ rw e (e, unregister-absent name ns)
]

unregister-OneEach :
    (name : String) (ns : List Notifier) → OneEach ns → OneEach (unregister name ns)
unfolding unregister
unregister-OneEach name [] h = tt
unregister-OneEach name (n ∷ ns) (h, hs) = elim (Bool-cases (str_eq n.name name)) [
  | inl e ↦ rw e (unregister-OneEach name ns hs)
  | inr e ↦
      rw e (
        unregister-All (λ k. str_eq n.name k.name ≡ false) name ns h,
        unregister-OneEach name ns hs,
      )
]

snoc-OneEach :
    (n : Notifier) (ns : List Notifier)
    → All (λ k. str_eq k.name n.name ≡ false) ns
    → OneEach ns
    → OneEach (ns ++ n ∷ [])
snoc-OneEach n [] a h = (tt, tt)
snoc-OneEach n (k ∷ ns) (a, rest) (h, hs) = (
  All-append (λ j. str_eq k.name j.name ≡ false) ns (n ∷ []) h (a, tt),
  snoc-OneEach n ns rest hs,
)

registered-OneEach :
    (ns : List Notifier) (c : Candidate) → OneEach ns → OneEach (or_default (register ns c) [])
unfolding register
registered-OneEach ns c o = checked c.supports c.name c.send
  where
    named :
        (supports : Option (IncidentEvent → Bool)) (name : String) (send : Payload → Sending)
        → OneEach (or_default (register_named ns supports name send) [])
    named supports name send = elim (Bool-cases (str_eq name "")) [
      | inl e ↦ rw e tt
      | inr e ↦ rw e (
          snoc-OneEach _ (unregister name ns) (unregister-absent name ns)
            (unregister-OneEach name ns o))
    ]

    checked :
        (supports : Option (IncidentEvent → Bool)) (name : Option String)
        (send : Option (Payload → Sending))
        → OneEach (or_default (register_checked ns supports name send) [])
    checked supports (some name) (some send) = named supports name send
    checked supports (some name) none = tt
    checked supports none send = tt

-- Registering keeps one notifier of each name.
pub register-OneEach :
    (ns ms : List Notifier) (c : Candidate) → register ns c ≡ some ms → OneEach ns → OneEach ms
register-OneEach ns ms c h o = subst (λ r. OneEach (or_default r [])) h (registered-OneEach ns c o)
