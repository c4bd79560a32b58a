-- ===== src/History/Bounds.antt =====
-- The hot cache of a channel stays small: a message that is stored pushes the oldest out.
use vussa.Base.{
  ℕ, zero, suc, ◌-◌, ◌≡◌, refl, ap, ◌∙◌, sym, Bool, true, false, not, ◌||◌, List, [], ◌∷◌, length,
  take, drop, keep, any, all, all-weaken, all-insert_sorted, leb, min, ◌==◌, any-keep_fewer,
  any-keep_none, insert_sorted, Distinct, length-drop, take-append-drop, ◌++◌, subst,
  any-insert_sorted, ==_refl, inl, inr, Bool-cases, arith,
}
use vussa.Models.{Uuid, ChatMessage}
use vussa.History.Commands.{
  HotCache, Entry, entry_le, same_member, is_among, zadd, zrem, hset, hdel, zrange_but_last,
}
use vussa.History.Stored.{Codec, from_message}
use vussa.History.{Valkey, hot_history_limit, put, trim_cache, store_message, is_empty}
use vussa.History.Triples.{OnOk, Triple, call-Triple, give-Triple, if-Triple, bind-Triple}

abbrev pub HasDistinct : HotCache → Type 0
HasDistinct hot = Distinct same_member hot.order

-- `zadd` keeps one entry for a member.
insert-Distinct :
    (e : Entry) (es : List Entry)
    → any (same_member e) es ≡ false
    → Distinct same_member es
    → Distinct same_member (insert_sorted entry_le e es)
unfolding insert_sorted
insert-Distinct e [] h d = (refl, tt)
insert-Distinct e (f ∷ es) h d = elim (Bool-cases (entry_le e f)) [
  | inl low ↦ rw low (h, d)
  | inr high ↦ rw high (
    rw (any-insert_sorted entry_le (same_member f) e es) (ground (arith, d.0, h)),
    insert-Distinct e es (ground (arith, h)) d.1,
  )
]

keep-Distinct :
    (q : Entry → Bool) (es : List Entry)
    → Distinct same_member es
    → Distinct same_member (keep q es)
unfolding keep
keep-Distinct q [] d = tt
keep-Distinct q (e ∷ es) d = elim (Bool-cases (q e)) [
  | inl kept ↦ rw kept (any-keep_fewer (same_member e) q es d.0, keep-Distinct q es d.1)
  | inr gone ↦ rw gone (keep-Distinct q es d.1)
]

zadd-HasDistinct : (e : Entry) (hot : HotCache) → HasDistinct hot → HasDistinct (zadd e hot)
unfolding zadd
zadd-HasDistinct e hot d =
    insert-Distinct e (keep (λ other. not (same_member e other)) hot.order)
      (any-keep_none (same_member e) (λ other. not (same_member e other)) (λ x h. ground arith)
        hot.order)
      (keep-Distinct _ hot.order d)

keep-same :
    (p q : Entry → Bool) (e : Entry) (es : List Entry)
    → any (same_member e) es ≡ false
    → ((f : Entry) → same_member e f ≡ false → p f ≡ q f)
    → keep p es ≡ keep q es
unfolding keep
keep-same p q e [] h same = refl
keep-same p q e (f ∷ es) h same = ground (arith, same f, keep-same p q e es)

keep-all : (es : List Entry) → keep (λ e. not (is_among [] e)) es ≡ es
unfolding keep
keep-all [] = refl
keep-all (e ∷ es) = ap (◌∷◌ e) (keep-all es)

-- To take the first entries out by their members leaves the others.
keep-drop :
    (n : ℕ) (es : List Entry)
    → Distinct same_member es
    → keep (λ e. not (is_among (take n es) e)) es ≡ drop n es
unfolding keep
keep-drop zero es d = keep-all es
keep-drop (suc n) [] d = refl
keep-drop (suc n) (e ∷ es) d = rw (==_refl e.1) (
    keep-same (λ f. not (same_member f e || is_among (take n es) f))
      (λ f. not (is_among (take n es) f)) e es d.0
      (λ f other. rw (same_member_sym f e ∙ other) refl)
    ∙ keep-drop n es d.1)
  where
    same_member_sym : (a b : Entry) → same_member a b ≡ same_member b a
    same_member_sym a b = ground arith

empty_is_nil : {A : Type 0} (xs : List A) → is_empty xs ≡ true → xs ≡ []
empty_is_nil [] h = refl
empty_is_nil (x ∷ xs) h = ground arith

-- The scores do not descend.
abbrev pub IsAscending : List Entry → Type 0
IsAscending [] = Unit
IsAscending (e ∷ es) = (all (λ f. leb e.0 f.0) es ≡ true) × IsAscending es

all-keep : (p q : Entry → Bool) (es : List Entry) → all p es ≡ true → all p (keep q es) ≡ true
unfolding keep
all-keep p q [] h = refl
all-keep p q (e ∷ es) h = ground (arith, all-keep p q es)

keep-IsAscending : (q : Entry → Bool) (es : List Entry) → IsAscending es → IsAscending (keep q es)
unfolding keep
keep-IsAscending q [] a = tt
keep-IsAscending q (e ∷ es) a = elim (Bool-cases (q e)) [
  | inl kept ↦ rw kept (all-keep (λ f. leb e.0 f.0) q es a.0, keep-IsAscending q es a.1)
  | inr gone ↦ rw gone (keep-IsAscending q es a.1)
]

insert-IsAscending :
    (e : Entry) (es : List Entry) → IsAscending es → IsAscending (insert_sorted entry_le e es)
unfolding insert_sorted
insert-IsAscending e [] a = (refl, tt)
insert-IsAscending e (f ∷ es) a = elim (Bool-cases (entry_le e f)) [
  | inl low ↦ rw low (
    ground (arith, all-weaken (λ g. leb f.0 g.0) (λ g. leb e.0 g.0) (λ g h. ground arith) es a.0),
    a,
  )
  | inr high ↦ rw high (
    all-insert_sorted entry_le (λ g. leb f.0 g.0) e es (ground arith) a.0,
    insert-IsAscending e es a.1,
  )
]

abbrev is_before : List Entry → Entry → Bool
is_before later e = all (λ f. leb e.0 f.0) later

all-after :
    (e : Entry) (xs ys : List Entry)
    → all (λ f. leb e.0 f.0) (xs ++ ys) ≡ true
    → is_before ys e ≡ true
all-after e [] ys h = h
all-after e (x ∷ xs) ys h = all-after e xs ys (ground arith)

append-IsAscending : (xs ys : List Entry) → IsAscending (xs ++ ys) → all (is_before ys) xs ≡ true
append-IsAscending [] ys a = refl
append-IsAscending (x ∷ xs) ys a =
    ground (arith, all-after x xs ys a.0, append-IsAscending xs ys a.1)

-- What is kept of the entries: the last 300, or all if they are fewer. What goes is no newer.
pub record IsNewest (entries kept : List Entry) : Type 0 where
  gone : List Entry
  whole : gone ++ kept ≡ entries
  older : all (λ e. all (λ f. leb e.0 f.0) kept) gone ≡ true
  bound : length kept ≡ min 300 (length entries)

drop-IsNewest :
    (entries kept : List Entry)
    → IsAscending entries
    → kept ≡ drop (length entries - 300) entries
    → IsNewest entries kept
drop-IsNewest entries kept a h =
    let old = take (length entries - 300) entries in
    let new = drop (length entries - 300) entries in
    let all_of : old ++ new ≡ entries = take-append-drop (length entries - 300) entries in
    subst (IsNewest entries) (sym h) (record {
      gone = old;
      whole = all_of;
      older = append-IsAscending old new (subst IsAscending (sym all_of) a);
      bound = omega (arith, length-drop (length entries - 300) entries);
    })

module _ (stored : HotCache) (ascending : IsAscending stored.order) where
  nothing_old :
      (ids : List Entry)
      → ids ≡ zrange_but_last hot_history_limit stored
      → is_empty ids ≡ true
      → IsNewest stored.order stored.order
  unfolding zrange_but_last
  nothing_old ids is_ids none_old = drop-IsNewest stored.order stored.order ascending (
      sym (take-append-drop (length stored.order - hot_history_limit) stored.order)
      ∙ ap (λ front. front ++ drop (length stored.order - hot_history_limit) stored.order)
          (sym is_ids ∙ empty_is_nil ids none_old))

  old_removed :
      (ids : List Entry)
      → HasDistinct stored
      → ids ≡ zrange_but_last hot_history_limit stored
      → IsNewest stored.order (hdel ids (zrem ids stored)).order
  unfolding zrange_but_last hdel zrem
  old_removed ids d is_ids =
      drop-IsNewest stored.order (hdel ids (zrem ids stored)).order ascending (
        ap (λ gone. keep (λ e. not (is_among gone e)) stored.order) is_ids
        ∙ keep-drop (length stored.order - hot_history_limit) stored.order d)

  trim-IsNewest :
      (ids : List Entry)
      → HasDistinct stored
      → Triple
          (λ hot. (hot ≡ stored) × (ids ≡ zrange_but_last hot_history_limit stored))
          (trim_cache ids)
          (λ _ hot. IsNewest stored.order hot.order)
  unfolding trim_cache
  trim-IsNewest ids d =
      if-Triple (is_empty ids) _ _
        (λ none_old. give-Triple tt λ hot h.
          subst (λ hot. IsNewest stored.order hot.order) (sym h.0) (nothing_old ids h.1 none_old))
        (λ _. call-Triple _ λ hot h.
          subst (λ old. IsNewest stored.order (hdel ids (zrem ids old)).order) (sym h.0)
            (old_removed ids d h.1))

module _ (codec : Codec) (message : ChatMessage) (owner_session : Uuid) where
  -- From a set whose scores ascend, with one entry for a member, whatever Valkey answers: if
  -- `store_message` succeeds, the set has the last 300 of the other messages' entries with the entry
  -- of this message, its time and identifier, put in by its place, or all if they are fewer; and no
  -- entry that went has a later time than one that stayed.
  pub store_message-IsNewest :
      (v : Valkey)
      → HasDistinct v.hot
      → IsAscending v.hot.order
      → OnOk
          (λ _ hot.
            IsNewest
              (insert_sorted entry_le
                (message.created_at, message.id)
                (keep (λ e. not (message.id == e.1)) v.hot.order))
              hot.order)
          (store_message codec message owner_session v)
  unfolding store_message hset zadd
  store_message-IsNewest v d a =
      let stored = put codec message owner_session v.hot in
      let others = keep (λ e. not (message.id == e.1)) v.hot.order in
      (bind-Triple (λ _ hot. hot ≡ stored)
          (call-Triple {P = λ hot. hot ≡ v.hot} _ (λ hot h. ap (put codec message owner_session) h))
          λ _.
            bind-Triple
              (λ ids hot. (hot ≡ stored) × (ids ≡ zrange_but_last hot_history_limit stored))
              (call-Triple _ λ hot h. (h, ap (zrange_but_last hot_history_limit) h))
              λ ids.
                trim-IsNewest stored
                  (insert-IsAscending (message.created_at, message.id) others
                    (keep-IsAscending (λ e. not (message.id == e.1)) v.hot.order a))
                  ids
                  (zadd-HasDistinct (message.created_at, message.id)
                    (hset message.id (codec.encode (from_message codec message owner_session))
                      v.hot)
                    d)).at
        v refl
