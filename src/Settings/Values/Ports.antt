-- ===== src/Settings/Values/Ports.antt =====
-- The port lists of internal/agentcore/sysconfig/settings_value_validation.go.
use labtether_linux.Base.{
  ℕ, suc, ◌≤◌, ◌≡◌, refl, ap, subst, ◌∙◌, Bool, true, false, ◌||◌, Option, none, some, List, [],
  ◌∷◌, ◌++◌, leb, ◌==◌, map, any, All, arith, Bool-cases, inl, inr,
}
use labtether_linux.Base.Result.{Result, ok, err}
use labtether_linux.Base.Int.{ℤ, pos, negsuc}
use labtether_linux.Base.Text.{Text, trim_space, is_empty, join}
use labtether_linux.Base.Decimal.{atoi}
use labtether_linux.Settings.Values.{
  SettingError, add_port, add_named, add_ports, list_fields, member, port_of, port_in_range, insert,
  sort_ints, port_text, comma, normalize_discovery_port_list_value,
}

-- The field names this port.
abbrev pub names_port : ℕ → Text → Bool
names_port p field = elim (port_of (trim_space field)) [ none ↦ false | some q ↦ q == p ]

-- Strictly increasing, from `low` on, up to 65535.
abbrev pub Ascends : ℕ → List ℕ → Type 0
Ascends low [] = Unit
Ascends low (p ∷ ps) = (low ≤ p) × (p ≤ 65535) × Ascends (suc p) ps

abbrev NoDup : List ℕ → Type 0
NoDup [] = Unit
NoDup (p ∷ ps) = (member p ps ≡ false) × NoDup ps

member-append : (p : ℕ) (xs ys : List ℕ) → member p (xs ++ ys) ≡ (member p xs || member p ys)
member-append p [] ys = refl
member-append p (x ∷ xs) ys = ground (arith, member-append p xs ys)

member-insert : (p x : ℕ) (xs : List ℕ) → member p (insert x xs) ≡ (x == p || member p xs)
unfolding insert
member-insert p x [] = refl
member-insert p x (y ∷ ys) = ground (arith, member-insert p x ys)

member-sort_ints : (p : ℕ) (xs : List ℕ) → member p (sort_ints xs) ≡ member p xs
unfolding sort_ints
member-sort_ints p [] = refl
member-sort_ints p (x ∷ xs) =
    ground (arith, member-insert p x (sort_ints xs), member-sort_ints p xs)

Ascends-insert :
    (low x : ℕ) (xs : List ℕ)
    → low ≤ x
    → x ≤ 65535
    → member x xs ≡ false
    → Ascends low xs
    → Ascends low (insert x xs)
unfolding insert
Ascends-insert low x [] a b m s = (a, b, tt)
Ascends-insert low x (y ∷ ys) a b m s = elim (Bool-cases (leb x y)) [
  | inl below ↦ rw below (a, b, (ground arith, s.1, s.2))
  | inr above ↦ rw above (s.0, s.1, Ascends-insert (suc y) x ys (ground arith) b (ground arith) s.2)
]

NoDup-snoc : (xs : List ℕ) (p : ℕ) → NoDup xs → member p xs ≡ false → NoDup (xs ++ (p ∷ []))
NoDup-snoc [] p d m = (refl, tt)
NoDup-snoc (x ∷ xs) p d m =
    (member-append x xs (p ∷ []) ∙ ground (arith, d.0), NoDup-snoc xs p d.1 (ground arith))

-- What the loop over the fields keeps of its ports.
record Collected (ports : List ℕ) : Type 0 where
  distinct : NoDup ports
  in_range : All (λ p. (1 ≤ p) × (p ≤ 65535)) ports

Ascends-sort_ints : (ports : List ℕ) → Collected ports → Ascends 1 (sort_ints ports)
unfolding sort_ints
Ascends-sort_ints [] c = tt
Ascends-sort_ints (p ∷ ps) c =
    Ascends-insert 1 p (sort_ints ps) c.in_range.0.0 c.in_range.0.1
      (member-sort_ints p ps ∙ c.distinct.0)
      (Ascends-sort_ints ps (record { distinct = c.distinct.1; in_range = c.in_range.1 }))

in_range_snoc :
    (xs : List ℕ) (p : ℕ)
    → All (λ q. (1 ≤ q) × (q ≤ 65535)) xs
    → 1 ≤ p
    → p ≤ 65535
    → All (λ q. (1 ≤ q) × (q ≤ 65535)) (xs ++ (p ∷ []))
in_range_snoc [] p i a b = ((a, b), tt)
in_range_snoc (x ∷ xs) p i a b = (i.0, in_range_snoc xs p i.1 a b)

port_of_bounds : (z : Option ℤ) (p : ℕ) → port_in_range z ≡ some p → (1 ≤ p) × (p ≤ 65535)
port_of_bounds none p h = cc
port_of_bounds (some (negsuc n)) p h = cc
port_of_bounds (some (pos n)) p h = (ground arith, ground arith)

abbrev is_port : ℕ → Option ℕ → Bool
is_port p none = false
is_port p (some q) = q == p

-- The ports after one field, whose port is `named`, if it has one.
record Added (named : Option ℕ) (ports next : List ℕ) : Type 0 where
  collected : Collected next
  members : (p : ℕ) → member p next ≡ (member p ports || is_port p named)

add_named-Added :
    (named : Option ℕ) (ports next : List ℕ)
    → Collected ports
    → ((p : ℕ) → named ≡ some p → (1 ≤ p) × (p ≤ 65535))
    → add_named named ports ≡ some next
    → Added named ports next
unfolding add_named
add_named-Added none ports next c b h = cc
add_named-Added (some port) ports next c b h = elim (Bool-cases (member port ports)) [
  | inl old ↦ subst (Added (some port) ports) (ground (arith, old, h)) (record {
    collected = c;
    members = λ p. elim (Bool-cases (port == p)) [
      | inl e ↦ ground (arith, e, old, ap (λ q. member q ports) (the_same p e))
      | inr e ↦ ground (arith, e)
    ];
  })
  | inr new ↦ subst (Added (some port) ports) (ground (arith, new, h)) (record {
    collected = record {
      distinct = NoDup-snoc ports port c.distinct new;
      in_range = in_range_snoc ports port c.in_range (b port refl).0 (b port refl).1;
    };
    members = λ p. member-append p ports (port ∷ []) ∙ ground arith;
  })
]
  where
    the_same : (p : ℕ) → (port == p) ≡ true → port ≡ p
    the_same p e = ground (arith, e)

add_port-Added :
    (field : Text) (ports next : List ℕ)
    → Collected ports
    → add_port field ports ≡ some next
    → Added (port_of (trim_space field)) ports next
unfolding add_port labtether_linux.Base.Decimal.atoi
add_port-Added field ports next c h = elim (Bool-cases (is_empty (trim_space field))) [
  | inl blank ↦ go (trim_space field) blank (ground (arith, blank, h))
  | inr full ↦
      add_named-Added (port_of (trim_space field)) ports next c
        (λ p. port_of_bounds (atoi (trim_space field)) p) (ground (arith, full, h))
]
  where
    go : (token : Text) → is_empty token ≡ true → ports ≡ next → Added (port_of token) ports next
    go [] e q = subst (Added none ports) q (record { collected = c; members = λ p. ground arith })
    go (x ∷ s) e q = cc

-- The ports after all fields.
record AllAdded (fields : List Text) (ports next : List ℕ) : Type 0 where
  collected : Collected next
  members : (p : ℕ) → member p next ≡ (member p ports || any (names_port p) fields)

add_ports-AllAdded :
    (fields : List Text) (ports next : List ℕ)
    → Collected ports
    → add_ports fields ports ≡ some next
    → AllAdded fields ports next
unfolding add_ports
add_ports-AllAdded [] ports next c h =
    subst (AllAdded [] ports) (ground (arith, h))
      (record { collected = c; members = λ p. ground arith })
add_ports-AllAdded (field ∷ fields) ports next c h =
    go (add_ports-AllAdded fields) (add_port field ports) refl h
  where
    go :
        ((mid next : List ℕ)
          → Collected mid
          → add_ports fields mid ≡ some next
          → AllAdded fields mid next)
        → (o : Option (List ℕ)) → add_port field ports ≡ o
        → elim o as (λ _. Option (List ℕ)) [ none ↦ none | some q ↦ add_ports fields q ] ≡ some next
        → AllAdded (field ∷ fields) ports next
    go rest none e h' = cc
    go rest (some mid) e h' =
        let a = add_port-Added field ports mid c e in
        let r = rest mid next a.collected h' in
        record { collected = r.collected; members = λ p. ground (arith, r.members p, a.members p) }

-- What a port list is normalized to: nothing for a blank one, and otherwise the ports that its fields name, each
-- once, in increasing order, from 1 to 65535, with commas between them.
pub data PortList (value : Text) : Text → Type 0 where
  blank : is_empty value ≡ true → PortList value []
  listed :
      (ports : List ℕ)
      → Ascends 1 ports
      → ((p : ℕ) → member p ports ≡ any (names_port p) (list_fields [] value))
      → PortList value (join (map port_text ports) comma)

-- A port list that is accepted is normalized to the ports that its fields name: each once, in increasing
-- order, from 1 to 65535, with commas between them; a blank one to the empty text.
pub normalize_discovery_port_list_value-PortList :
    (raw out : Text)
    → normalize_discovery_port_list_value raw ≡ ok out
    → PortList (trim_space raw) out
unfolding normalize_discovery_port_list_value
normalize_discovery_port_list_value-PortList raw out h = elim (Bool-cases (is_empty value)) [
  | inl e ↦ subst (PortList value) (ground (arith, e, h)) (blank e)
  | inr e ↦ go (add_ports (list_fields [] value) []) refl (simp e at h)
]
  where
    value : Text
    value = trim_space raw

    go :
        (o : Option (List ℕ))
        → add_ports (list_fields [] value) [] ≡ o
        → elim o as (λ _. Result SettingError Text) [
          | none ↦ err SettingError.bad_port
          | some ports ↦ ok (join (map port_text (sort_ints ports)) comma)
        ]
          ≡ ok out
        → PortList value out
    go none q h' = cc
    go (some ports) q h' =
        let a =
          add_ports-AllAdded (list_fields [] value) [] ports
            (record { distinct = tt; in_range = tt }) q in
        subst (PortList value) (ground (arith, h')) (
          listed (sort_ints ports) (Ascends-sort_ints ports a.collected)
            (λ p. member-sort_ints p ports ∙ ground (arith, a.members p)))
