-- ===== src/History/Commands.antt =====
-- The commands of Valkey that history.rs sends, on one hash and one sorted set. The members of the
-- set are the texts of identifiers, which compare as the identifiers do.
use vussa.Base.{
  ℕ, ◌==◌, ◌-◌, ltb, leb, Bool, not, ◌&&◌, ◌||◌, Option, none, some, List, [], ◌∷◌, length, take,
  drop, keep, any, find, insert_sorted, reverse_onto,
}
use vussa.Models.{Uuid}

abbrev pub Entry : Type 0
Entry = ℕ × Uuid

-- `order` ascends by score and member; `hash` has one entry for a field.
pub record HotCache : Type 0 where
  pub order : List Entry
  pub hash : List (Uuid × List ℕ)

abbrev pub entry_le : Entry → Entry → Bool
entry_le a b = ltb a.0 b.0 || a.0 == b.0 && leb a.1 b.1

abbrev pub same_member : Entry → Entry → Bool
same_member a b = a.1 == b.1

abbrev pub is_among : List Entry → Entry → Bool
is_among entries e = any (same_member e) entries

-- `ZADD key score member`.
unfoldable pub zadd : Entry → HotCache → HotCache
zadd e c = record c {
  order = insert_sorted entry_le e (keep (λ other. not (same_member e other)) c.order);
}

-- `ZREM key member…`.
unfoldable pub zrem : List Entry → HotCache → HotCache
zrem entries c = record c { order = keep (λ e. not (is_among entries e)) c.order }

-- `ZRANGE key -n -1`.
unfoldable pub zrange_last : ℕ → HotCache → List Entry
zrange_last n c = drop (length c.order - n) c.order

-- `ZRANGE key 0 -(n+1)`.
unfoldable pub zrange_but_last : ℕ → HotCache → List Entry
zrange_but_last n c = take (length c.order - n) c.order

-- `ZREVRANGEBYSCORE key max -inf LIMIT 0 n`.
unfoldable pub zrevrangebyscore : ℕ → ℕ → HotCache → List Entry
zrevrangebyscore max_score n c = take n (reverse_onto (keep (λ e. leb e.0 max_score) c.order) [])

-- `HSET key field value`.
unfoldable pub hset : Uuid → List ℕ → HotCache → HotCache
hset id value c = record c { hash = (id, value) ∷ keep (λ other. not (other.0 == id)) c.hash }

-- `HDEL key field…`.
unfoldable pub hdel : List Entry → HotCache → HotCache
hdel entries c = record c { hash = keep (λ f. not (any (λ e. e.1 == f.0) entries)) c.hash }

abbrev pub values_at : Option (Uuid × List ℕ) → List (List ℕ) → List (List ℕ)
values_at none rest = rest
values_at (some f) rest = f.1 ∷ rest

-- `HMGET key field…`, without the fields that are not there (`flatten`).
unfoldable pub hmget : List Entry → HotCache → List (List ℕ)
hmget [] c = []
hmget (e ∷ es) c = values_at (find (λ f. f.0 == e.1) c.hash) (hmget es c)
