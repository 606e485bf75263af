-- ===== src/Governance/Pack.antt =====
-- The evidence of a pack, back to the candidates it was selected from, and its conflicts.
use it_outsourcing_knowledge.Base.{
  ℕ, suc, ◌≡◌, inl, inr, refl, sym, ap, ◌∙◌, subst, String, Bool, true, false, ◌&&◌, some, List, [],
  ◌∷◌, ◌++◌, map, str_eq, eq_iff, is_some, get_or, select, take, drop, Bool-cases, All, All-take,
  All-drop, All-append, All-self, Memᴰ-map,
}
use mathlib.Core.List.{Memᴰ}
use it_outsourcing_knowledge.Base.Query.{All-Memᴰ, All-select, Memᴰ-select}
use it_outsourcing_knowledge.Base.Sort.{sort, All-sort}
use it_outsourcing_knowledge.Base.Text.{str_le}
use it_outsourcing_knowledge.Base.Uuid.{UuidCodec}
use it_outsourcing_knowledge.Access.{str_mem, dedupe}
use it_outsourcing_knowledge.Access.Texts.{str_mem-sort, str_mem-dedupe}
use it_outsourcing_knowledge.EvidenceMetadata.{authority_rank}
use it_outsourcing_knowledge.Governance.{
  GovernedEvidence, one_value, resolve_explicit_conflicts, stronger_first, is_protected,
  select_evidence, labelled, in_conflict, conflict_keys, conflicts_for, pack_candidates,
}
use it_outsourcing_knowledge.Governance.Resolve.{
  IsUnmarked, All-resolve, Contradicts, resolved_pair, one_value_same,
}

abbrev pub with_label : String → GovernedEvidence → GovernedEvidence
with_label l e = record e { label = l }

All-labelled :
    (P Q : GovernedEvidence → Type 0)
    → ((l : String) (e : GovernedEvidence) → P e → Q (with_label l e))
    → (n : ℕ) (xs : List GovernedEvidence) → All P xs
    → All Q (labelled n xs)
unfolding labelled
All-labelled P Q keep n [] h = tt
All-labelled P Q keep n (x ∷ xs) h = (keep _ x h.0, All-labelled P Q keep (suc n) xs h.1)

All-select_evidence :
    (P : GovernedEvidence → Type 0) (uuid : UuidCodec) (limit : ℕ) (items : List GovernedEvidence)
    → All P items
    → All P (select_evidence uuid limit items)
unfolding select_evidence
All-select_evidence P uuid limit items h =
    All-sort (stronger_first uuid) P (take limit items ++ select is_protected (drop limit items)) (
      All-append P (take limit items) (select is_protected (drop limit items))
        (All-take P limit items h)
        (All-select P is_protected (drop limit items) (All-drop P limit items h)))

-- What holds of every candidate holds of all evidence of the pack, if marks and labels do not
-- matter to it.
pub All-pack :
    (P : GovernedEvidence → Type 0)
    → IsUnmarked P
    → ((l : String) (e : GovernedEvidence) → P e → P (with_label l e))
    → (uuid : UuidCodec) (limit : ℕ) (candidates : List GovernedEvidence) → All P candidates
    → All P (pack_candidates uuid limit candidates).evidence
unfolding pack_candidates
All-pack P unmarked unlabelled uuid limit candidates h =
    All-labelled P P unlabelled 1
      (select_evidence uuid limit
        (sort (stronger_first uuid) (resolve_explicit_conflicts candidates)))
      (All-select_evidence P uuid limit
        (sort (stronger_first uuid) (resolve_explicit_conflicts candidates))
        (All-sort (stronger_first uuid) P (resolve_explicit_conflicts candidates)
          (All-resolve P unmarked candidates h)))

-- An item of the pack is a resolved candidate with a label.
abbrev pub Labels : List GovernedEvidence → GovernedEvidence → Type 0
Labels candidates e =
    (x : GovernedEvidence) × Memᴰ x (resolve_explicit_conflicts candidates)
    × (e ≡ with_label e.label x)

pack-Labels :
    (uuid : UuidCodec) (limit : ℕ) (candidates : List GovernedEvidence)
    → All (Labels candidates) (pack_candidates uuid limit candidates).evidence
unfolding pack_candidates
pack-Labels uuid limit candidates =
    All-labelled (λ x. Memᴰ x (resolve_explicit_conflicts candidates)) (Labels candidates)
      (λ l x m. (x, m, refl)) 1
      (select_evidence uuid limit
        (sort (stronger_first uuid) (resolve_explicit_conflicts candidates)))
      (All-select_evidence _ uuid limit
        (sort (stronger_first uuid) (resolve_explicit_conflicts candidates))
        (All-sort (stronger_first uuid) (λ x. Memᴰ x (resolve_explicit_conflicts candidates))
          (resolve_explicit_conflicts candidates)
          (All-self (resolve_explicit_conflicts candidates))))

-- The conflicts name the key, with the labels of both items.
abbrev pub Discloses : List (String × List String) → String → String → String → Type 0
Discloses conflicts key l m =
    (labels : List String) × Memᴰ (key, labels) conflicts × Memᴰ l labels × Memᴰ m labels

key_listed :
    (k : String) (items : List GovernedEvidence) (e : GovernedEvidence)
    → Memᴰ e items
    → in_conflict k e ≡ true
    → str_mem k (conflict_keys items) ≡ true
unfolding conflict_keys in_conflict
key_listed k items e m h =
    str_mem-sort str_le k (dedupe keys)
    ∙ str_mem-dedupe k keys
    ∙ listed keys (
        Memᴰ-map (λ x. get_or x.conflict_key "") e (select is_protected items)
          (Memᴰ-select is_protected protected_e m))
  where
    keys : List String
    keys = map (λ x. get_or x.conflict_key "") (select is_protected items)

    first_of : (a b : Bool) → (a && b) ≡ true → (a ≡ true) × (b ≡ true)
    first_of true b h = (refl, h)
    first_of false b h = cc

    protected_e : is_protected e ≡ true
    protected_e = (first_of (is_protected e) (str_eq (get_or e.conflict_key "") k) h).0

    same_key : get_or e.conflict_key "" ≡ k
    same_key =
        (eq_iff (get_or e.conflict_key "") k).0
          (first_of (is_protected e) (str_eq (get_or e.conflict_key "") k) h).1

    listed : (xs : List String) → Memᴰ (get_or e.conflict_key "") xs → str_mem k xs ≡ true
    listed [] n = elim n [ ]
    listed (x ∷ xs) (Memᴰ.head q) = rw ((eq_iff k x).1 (sym same_key ∙ q)) refl
    listed (x ∷ xs) (Memᴰ.tail n) = elim (Bool-cases (str_eq k x)) [
      | inl s ↦ rw s refl
      | inr s ↦ rw s (listed xs n)
    ]

conflicts_listed :
    (items : List GovernedEvidence) (k : String) (keys : List String)
    → str_mem k keys ≡ true
    → one_value (select (in_conflict k) items) ≡ false
    → Memᴰ (k, map (λ e. e.label) (select (in_conflict k) items)) (conflicts_for items keys)
unfolding conflicts_for
conflicts_listed items k [] h many = cc
conflicts_listed items k (j ∷ js) h many = elim (Bool-cases (str_eq k j)) [
  | inl same ↦
      let here : Memᴰ (k, map (λ e. e.label) (select (in_conflict k) items))
          (conflicts_for items (k ∷ js)) =
        rw many (Memᴰ.head refl) in
      subst
        (λ i.
          Memᴰ (k, map (λ e. e.label) (select (in_conflict k) items))
            (conflicts_for items (i ∷ js)))
        ((eq_iff k j).0 same) here
  | inr other ↦
      let later = conflicts_listed items k js (rw other at h) many in
      elim (Bool-cases (one_value (select (in_conflict j) items))) [
        | inl one ↦ rw one later
        | inr more ↦ rw more (Memᴰ.tail later)
      ]
]

all_three : (p q r : Bool) → p ≡ true → q ≡ true → r ≡ true → ((p && q) && r) ≡ true
all_three p q r h k l = rw h (rw k l)

-- Contradicting evidence of a pack is marked, of one authority, and among the conflicts.
pub pack_conflicts :
    (uuid : UuidCodec) (limit : ℕ) (candidates : List GovernedEvidence) (a b : GovernedEvidence)
    → Memᴰ a (pack_candidates uuid limit candidates).evidence
    → Memᴰ b (pack_candidates uuid limit candidates).evidence
    → (c : Contradicts a b)
    → (a.unresolved_conflict ≡ true)
      × (b.unresolved_conflict ≡ true)
      × (authority_rank a.authority_level ≡ authority_rank b.authority_level)
      × Discloses (pack_candidates uuid limit candidates).unresolved_conflicts c.key a.label b.label
unfolding pack_candidates in_conflict is_protected
pack_conflicts uuid limit candidates a b m n c =
    let (x, mx, ex) = All-Memᴰ (Labels candidates) (pack-Labels uuid limit candidates) m in
    let (y, my, ey) = All-Memᴰ (Labels candidates) (pack-Labels uuid limit candidates) n in
    let (ua, ub, ranks) = resolved_pair candidates x y mx my (unlabelled x y ex ey) in
    let ua' = ap (λ e. e.unresolved_conflict) ex ∙ ua in
    let ub' = ap (λ e. e.unresolved_conflict) ey ∙ ub in
    let ia = in_key a ua' c.a_key in
    let ib = in_key b ub' c.b_key in
    let values = select (in_conflict c.key) evidence in
    let ma = Memᴰ-select (in_conflict c.key) ia m in
    let mb = Memᴰ-select (in_conflict c.key) ib n in
    (
      ua',
      ub',
      ap (λ e. authority_rank e.authority_level) ex
          ∙ ranks
          ∙ sym (ap (λ e. authority_rank e.authority_level) ey),
      (
        map (λ e. e.label) values,
        conflicts_listed evidence c.key (conflict_keys evidence) (key_listed c.key evidence a m ia)
            (differ ma mb),
        Memᴰ-map (λ e. e.label) a values ma,
        Memᴰ-map (λ e. e.label) b values mb,
      ),
    )
  where
    evidence : List GovernedEvidence
    evidence = (pack_candidates uuid limit candidates).evidence

    unlabelled :
        (x y : GovernedEvidence)
        → a ≡ with_label a.label x
        → b ≡ with_label b.label y
        → Contradicts x y
    unlabelled x y ex ey = record {
      key = c.key;
      first = c.first;
      second = c.second;
      a_key = sym (ap (λ e. e.conflict_key) ex) ∙ c.a_key;
      b_key = sym (ap (λ e. e.conflict_key) ey) ∙ c.b_key;
      a_claim = sym (ap (λ e. e.claim_value) ex) ∙ c.a_claim;
      b_claim = sym (ap (λ e. e.claim_value) ey) ∙ c.b_claim;
      apart = c.apart;
    }

    in_key :
        (e : GovernedEvidence)
        → e.unresolved_conflict ≡ true
        → e.conflict_key ≡ some c.key
        → in_conflict c.key e ≡ true
    in_key e u k =
        all_three (e.unresolved_conflict) (is_some e.conflict_key)
          (str_eq (get_or e.conflict_key "") c.key) u (ap (λ o. is_some o) k)
          ((eq_iff (get_or e.conflict_key "") c.key).1 (ap (λ o. get_or o "") k))

    differ :
        Memᴰ a (select (in_conflict c.key) evidence)
        → Memᴰ b (select (in_conflict c.key) evidence)
        → one_value (select (in_conflict c.key) evidence) ≡ false
    differ ma mb = elim (Bool-cases (one_value (select (in_conflict c.key) evidence))) [
      | inr many ↦ many
      | inl one ↦ absurd (
          c.apart (
            ap (λ o. get_or o "") (sym c.a_claim)
            ∙ one_value_same (select (in_conflict c.key) evidence) a b one ma mb
            ∙ ap (λ o. get_or o "") c.b_claim))
    ]
