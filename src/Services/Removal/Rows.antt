-- ===== src/Services/Removal/Rows.antt =====
-- The one row of a membership, and the one channel of a name.
use vussa.Base.{
  ◌≡◌, refl, sym, String, eq_iff, Bool, true, false, not, Option, none, some, List, [], ◌∷◌, any,
  any-keep_fewer, keep, find, find-any, Distinct, arith, subst, ap, inl, inr, Bool-cases,
}
use vussa.Models.{Uuid}
use vussa.Database.{ChannelRow, MemberRow}
use vussa.Database.Tables.{is_membership, has_name}
use vussa.Services.Statements.{is_removable}
use vussa.Services.Ownership.{same_name}

abbrev pub same_membership : MemberRow → MemberRow → Bool
same_membership a b = is_membership a.channel_id a.user_id b

any-removable :
    (channel user : Uuid) (m : MemberRow) (ms : List MemberRow)
    → is_membership channel user m ≡ true
    → any (same_membership m) ms ≡ false
    → any (is_removable channel user) ms ≡ false
any-removable channel user m [] h d = refl
any-removable channel user m (x ∷ ms) h d = ground (arith, any-removable channel user m ms)

any-other :
    (channel user : Uuid) (m : MemberRow) (ms : List MemberRow)
    → is_membership channel user m ≡ true
    → any (same_membership m) ms ≡ false
    → any (is_membership channel user) ms ≡ false
any-other channel user m [] h d = refl
any-other channel user m (x ∷ ms) h d = ground (arith, any-other channel user m ms)

removable_of :
    (channel user : Uuid) (m : MemberRow) (ms : List MemberRow)
    → is_membership channel user m ≡ true
    → any (same_membership m) ms ≡ false
    → any (is_removable channel user) (m ∷ ms) ≡ true
    → is_removable channel user m ≡ true
removable_of channel user m ms this d h = ground (arith, any-removable channel user m ms this d, h)

rest_removable :
    (channel user : Uuid) (m : MemberRow) (ms : List MemberRow)
    → is_membership channel user m ≡ false
    → any (is_removable channel user) (m ∷ ms) ≡ true
    → any (is_removable channel user) ms ≡ true
rest_removable channel user m ms other h = rw other at h

pub removed-row :
    (channel user : Uuid) (ms : List MemberRow)
    → Distinct same_membership ms
    → any (is_removable channel user) ms ≡ true
    → any (is_membership channel user) (keep (λ m. not (is_removable channel user m)) ms) ≡ false
unfolding keep
removed-row channel user [] d h = refl
removed-row channel user (m ∷ ms) d h = elim (Bool-cases (is_membership channel user m)) [
  | inl this ↦ rw (removable_of channel user m ms this d.0 h) (
      any-keep_fewer (is_membership channel user) (λ m. not (is_removable channel user m)) ms
        (any-other channel user m ms this d.0))
  | inr other ↦
      rw (other, other) (removed-row channel user ms d.1 (rest_removable channel user m ms other h))
]

-- Of the channels with a name there is one: what does not hold of it holds of none of them.
any-named :
    (name : String) (q : ChannelRow → Bool)
    → ((c : ChannelRow) → q c ≡ true → has_name name c ≡ true)
    → (cs : List ChannelRow) → any (has_name name) cs ≡ false
    → any q cs ≡ false
any-named name q named [] h = refl
any-named name q named (c ∷ cs) h = ground (arith, named c, any-named name q named cs)

any-same_name :
    (name : String) (c : ChannelRow) (cs : List ChannelRow)
    → has_name name c ≡ true
    → any (same_name c) cs ≡ false
    → any (has_name name) cs ≡ false
any-same_name name c cs h d = subst (λ n. any (has_name n) cs ≡ false) ((eq_iff c.name name).0 h) d

abbrev or_else : ChannelRow → Option ChannelRow → ChannelRow
or_else c none = c
or_else c (some d) = d

-- The first channel, if the others have other names.
first_found :
    (p q : ChannelRow → Bool) (x c : ChannelRow) (cs : List ChannelRow)
    → any p cs ≡ false
    → find p (x ∷ cs) ≡ some c
    → q c ≡ false
    → q x ≡ false
unfolding find
first_found p q x c cs none_left found h = elim (Bool-cases (p x)) [
  | inl here ↦ subst (λ y. q y ≡ false) (sym (ap (or_else x) (rw here at found))) h
  | inr past ↦ ground (arith, find-any p cs c, past, found, none_left)
]

pub only_named :
    (name : String) (p q : ChannelRow → Bool)
    → ((c : ChannelRow) → p c ≡ true → has_name name c ≡ true)
    → ((c : ChannelRow) → q c ≡ true → has_name name c ≡ true)
    → (cs : List ChannelRow) (c : ChannelRow) → Distinct same_name cs
    → find p cs ≡ some c
    → q c ≡ false
    → any q cs ≡ false
unfolding find
only_named name p q p_named q_named [] c d found h = refl
only_named name p q p_named q_named (x ∷ cs) c d found h = elim (Bool-cases (has_name name x)) [
  | inl this ↦
      let rest = any-same_name name x cs this d.0 in
      rw
        (
          first_found p q x c cs (any-named name p p_named cs rest) found h,
          any-named name q q_named cs rest,
        )
        refl
  | inr other ↦ ground (arith, p_named x, q_named x, only_named name p q p_named q_named cs c d.1)
]
