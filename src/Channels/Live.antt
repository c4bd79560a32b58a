-- ===== src/Channels/Live.antt =====
-- Which updates by an identifier leave a main channel that is not deleted in the table.
use vussa.Base.{
  ℕ, ◌≡◌, refl, String, str_eq, Bool, true, false, not, ◌&&◌, Option, none, some, List, [], ◌∷◌,
  any, find, Distinct, arith, Bool-cases, inl, inr,
}
use vussa.Models.{Uuid}
use vussa.Error.{Result, ok, err, bad_request}
use vussa.Database.{ChannelRow}
use vussa.Database.Tables.{has_id, is_live, update}
use vussa.Text.{Unicode, main_channel, normalize_channel_name}
use vussa.Services.Ownership.{same_id}
use vussa.Channels.{
  ChannelAdminRequest, set_details, rename, new_name, checked_name, is_live_id, row_name,
}

-- No live row with the identifier is the main channel.
abbrev pub is_apart : Uuid → List ChannelRow → Bool
is_apart id cs = not (any (λ c. has_id id c && is_live main_channel c) cs)

none-apart : (id : Uuid) (cs : List ChannelRow) → any (has_id id) cs ≡ false → is_apart id cs ≡ true
none-apart id [] h = refl
none-apart id (c ∷ cs) h = ground (arith, none-apart id cs)

same_row :
    (id : Uuid) (c : ChannelRow) (cs : List ChannelRow)
    → has_id id c ≡ true
    → any (same_id c) cs ≡ false
    → any (has_id id) cs ≡ false
same_row id c [] hit h = refl
same_row id c (d ∷ cs) hit h = ground (arith, same_row id c cs)

-- What a search by the identifier finds tells the name of its one row.
module _ (id : Uuid) (p : ChannelRow → Bool)
    (p_id : (c : ChannelRow) → p c ≡ true → has_id id c ≡ true)
    (p_live : (c : ChannelRow)
      → has_id id c ≡ true
      → is_live main_channel c ≡ true
      → p c ≡ true) where
  pub found-apart :
      (current : String) (cs : List ChannelRow)
      → Distinct same_id cs
      → row_name (find p cs) ≡ some current
      → str_eq current main_channel ≡ false
      → is_apart id cs ≡ true
  unfolding find
  found-apart current [] d e other = refl
  found-apart current (c ∷ cs) d e other = elim (Bool-cases (p c)) [
    | inl hit ↦
        let found : some c.name ≡ some current = rw hit at e in
        let named : str_eq c.name main_channel ≡ false = cc (found, other) in
        ground (arith, named, none-apart id cs (same_row id c cs (p_id c hit) d.0))
    | inr miss ↦
        let later : row_name (find p cs) ≡ some current = rw miss at e in
        ground (arith, miss, p_live c, found-apart current cs d.1 later other)
  ]

pub apart-live :
    (id : Uuid) (f : ChannelRow → ChannelRow) (cs : List ChannelRow)
    → is_apart id cs ≡ true
    → any (is_live main_channel) cs ≡ true
    → any (is_live main_channel) (update (has_id id) f cs) ≡ true
unfolding update
apart-live id f [] h live = live
apart-live id f (c ∷ cs) h live = ground (arith, apart-live id f cs)

rename_main-live :
    (id : Uuid) (name : String) (cs : List ChannelRow)
    → str_eq name main_channel ≡ true
    → any (is_live main_channel) cs ≡ true
    → any (is_live main_channel) (update (has_id id) (rename name) cs) ≡ true
unfolding update
rename_main-live id name [] h live = live
rename_main-live id name (c ∷ cs) h live = ground (arith, rename_main-live id name cs)

pub details-live :
    (p : ChannelRow → Bool) (request : ChannelAdminRequest) (retention : Option ℕ)
    (cs : List ChannelRow)
    → any (is_live main_channel) (update p (set_details request retention) cs)
      ≡ any (is_live main_channel) cs
unfolding update
details-live p request retention [] = refl
details-live p request retention (c ∷ cs) = ground (arith, details-live p request retention cs)

-- The check of a new name.
checked_name-main :
    (current : String) (r : Result String) (name : String)
    → checked_name current r ≡ ok (some name)
    → str_eq current main_channel ≡ true
    → str_eq name main_channel ≡ true
checked_name-main current (err e) name h main = cc
checked_name-main current (ok n) name h main = elim (Bool-cases (str_eq n main_channel)) [
  | inl same ↦ let e : ok (some n) ≡ ok (some name) = rw (main, same) at h in cc (e, same)
  | inr other ↦
      let e : err (bad_request "main cannot be renamed") ≡ ok (some name) = rw (main, other) at h in
      cc (e)
]

new_name-main :
    (u : Unicode) (current : String) (raw : Option String) (name : String)
    → new_name u current raw ≡ ok (some name)
    → str_eq current main_channel ≡ true
    → str_eq name main_channel ≡ true
unfolding new_name
new_name-main u current none name h main = cc
new_name-main u current (some raw) name h main =
    checked_name-main current (normalize_channel_name u raw) name h main

pub rename-live :
    (u : Unicode) (id : Uuid) (current : String) (raw : Option String) (name : String)
    (cs : List ChannelRow)
    → Distinct same_id cs
    → row_name (find (is_live_id id) cs) ≡ some current
    → new_name u current raw ≡ ok (some name)
    → any (is_live main_channel) cs ≡ true
    → any (is_live main_channel) (update (has_id id) (rename name) cs) ≡ true
rename-live u id current raw name cs d found checked live =
    elim (Bool-cases (str_eq current main_channel)) [
      | inl main ↦ rename_main-live id name cs (new_name-main u current raw name checked main) live
      | inr other ↦
          apart-live id (rename name) cs
            (found-apart id (is_live_id id) (λ c h. ground arith) (λ c h k. ground arith) current cs
              d found other)
            live
    ]
