-- ===== src/Streaming/Retry.antt =====
-- streaming_inserts.go: a request that is sent again after it was refused for an invalid row.
use loca_ql.Prelude.{
  ℕ, ◌+◌, ◌≤◌, String, ◌≡◌, refl, sym, ◌∙◌, true, false, Option, none, some, List, [], ◌∷◌, ◌==◌,
  All, arith, eq_iff, ◌⊎◌, inl, inr, Bool-cases, any,
}
use loca_ql.GoMap
use loca_ql.GoMap.{GoMap, get-put}
use loca_ql.Streaming.Insert.{
  streaming_insert_dedup_ttl, is_stale, purge_seen, seen_key, fresh, seen_recently, Collected,
  check_id,
}

-- The clock of the retry is not before that of the request, and within the 15 minutes.
module _ (now later : ℕ) (after : now ≤ later)
    (soon : later ≤ now + streaming_insert_dedup_ttl) where
  -- The key is in the store, and will not be stale at the retry.
  unfoldable pub Known : String → GoMap ℕ → Type 0
  Known key seen = fresh later (GoMap.get seen key) ≡ true

  -- No entry turns stale between the request and the retry.
  unfoldable pub Steady : GoMap ℕ → Type 0
  Steady seen = All (λ entry. (is_stale now entry.1 ≡ false) → is_stale later entry.1 ≡ false) seen

  fresh-now : (o : Option ℕ) → fresh later o ≡ true → fresh now o ≡ true
  unfolding fresh is_stale
  fresh-now none h = h
  fresh-now (some t) h = ground arith

  pub get-purge_seen :
      (at : ℕ) (seen : GoMap ℕ) (key : String)
      → fresh at (GoMap.get seen key) ≡ true
      → GoMap.get (purge_seen at seen) key ≡ GoMap.get seen key
  unfolding purge_seen fresh GoMap.get
  get-purge_seen at [] key h = refl
  get-purge_seen at ((k, t) ∷ seen) key h = ground (arith, get-purge_seen at seen key)

  purge-Steady : (at : ℕ) (seen : GoMap ℕ) → Steady seen → Steady (purge_seen at seen)
  unfolding purge_seen Steady
  purge-Steady at [] h = tt
  purge-Steady at ((k, t) ∷ seen) h = elim (Bool-cases (is_stale at t)) [
    | inl old ↦ rw (old, purge_seen) (purge-Steady at seen h.1)
    | inr new ↦ rw (new, purge_seen) (h.0, purge-Steady at seen h.1)
  ]

  now-fresh : is_stale later now ≡ false
  unfolding is_stale
  now-fresh = ground arith

  put-Steady : (seen : GoMap ℕ) (key : String) → Steady seen → Steady (GoMap.put seen key now)
  unfolding Steady GoMap.put
  put-Steady [] key h = (λ x. now-fresh, tt)
  put-Steady ((k, t) ∷ seen) key h = elim (Bool-cases (k == key)) [
    | inl same ↦ rw (same, GoMap.put) (λ x. now-fresh, h.1)
    | inr other ↦ rw (other, GoMap.put) (h.0, put-Steady seen key h.1)
  ]

  Steady-Known :
      (seen : GoMap ℕ) (key : String)
      → Steady seen
      → fresh now (GoMap.get seen key) ≡ true
      → Known key seen
  unfolding Steady Known fresh GoMap.get
  Steady-Known [] key h f = f
  Steady-Known ((k, t) ∷ seen) key h f = ground (arith, h.0, Steady-Known seen key h.1)

  put-Known :
      (seen : GoMap ℕ) (key other : String)
      → (Known other seen) ⊎ (key ≡ other)
      → Known other (GoMap.put seen key now)
  unfolding Known fresh
  put-Known seen key other (inl h) = ground (arith, get-put seen key other now, now-fresh)
  put-Known seen key other (inr h) =
      ground (arith, get-put seen key other now, now-fresh, eq_iff key other)

  pub purge-Known :
      (at : ℕ) (seen : GoMap ℕ) (key : String)
      → ((o : Option ℕ) → fresh later o ≡ true → fresh at o ≡ true)
      → Known key seen
      → Known key (purge_seen at seen)
  unfolding Known
  purge-Known at seen key earlier h =
      rw (get-purge_seen at seen key (earlier (GoMap.get seen key) h)) h

  -- What asking the store about an ID leaves: the ID is known, and so is what was known before.
  Left : String → String → GoMap ℕ → GoMap ℕ → Type 0
  Left resource id seen seen' =
      Steady seen'
      × Known (seen_key resource id) seen'
      × ((key : String) → Known key seen → Known key seen')

  seen_recently-Left :
      (resource id : String) (seen : GoMap ℕ)
      → (id == "") ≡ false
      → Steady seen
      → Left resource id seen (seen_recently resource id now seen).0
  unfolding Left
  seen_recently-Left resource id seen named h =
      let kept = purge_seen now seen in
      let key = seen_key resource id in
      let steady : Steady kept = purge-Steady now seen h in
      elim (Bool-cases (fresh now (GoMap.get kept key))) [
        | inl recent ↦
            let at : seen_recently resource id now seen ≡ (kept, true) =
              unfold seen_recently in rw (named, recent) refl in
            rw at
              (steady, Steady-Known kept key steady recent, λ k. purge-Known now seen k fresh-now)
        | inr new ↦
            let at : seen_recently resource id now seen ≡ (GoMap.put kept key now, false) =
              unfold seen_recently in rw (named, new) refl in
            rw at (
              put-Steady kept key steady,
              put-Known kept key key (inr refl),
              λ k old. put-Known kept key k (inl (purge-Known now seen k fresh-now old)),
            )
      ]

  -- What holds of the loop's variables.
  unfoldable pub Inv : String → Collected → Type 0
  Inv resource c = Steady c.seen × All (λ id. Known (seen_key resource id) c.seen) c.this_request

  unfoldable pub Kept : String → String → Collected → Collected → Type 0
  Kept resource id c c' =
      Inv resource c'
      × Known (seen_key resource id) c'.seen
      × ((key : String) → Known key c.seen → Known key c'.seen)

  pub any-Known :
      (resource id : String) (ids : List String) (seen : GoMap ℕ)
      → All (λ other. Known (seen_key resource other) seen) ids
      → any (λ other. other == id) ids ≡ true
      → Known (seen_key resource id) seen
  any-Known resource id [] seen h found = absurd (cc)
  any-Known resource id (other ∷ ids) seen h found = elim (Bool-cases (other == id)) [
    | inl same ↦ let e : other ≡ id = ground (arith, eq_iff other id) in rw (← e) h.0
    | inr differs ↦ any-Known resource id ids seen h.1 (sym (rw differs refl) ∙ found)
  ]

  All-keep :
      (resource : String) (ids : List String) (seen seen' : GoMap ℕ)
      → ((key : String) → Known key seen → Known key seen')
      → All (λ id. Known (seen_key resource id) seen) ids
      → All (λ id. Known (seen_key resource id) seen') ids
  All-keep resource [] seen seen' keep h = tt
  All-keep resource (id ∷ ids) seen seen' keep h =
      (keep (seen_key resource id) h.0, All-keep resource ids seen seen' keep h.1)

  pub check_id-Kept :
      (resource id : String) (c : Collected)
      → (id == "") ≡ false
      → Inv resource c
      → Kept resource id c (check_id resource now id c).0
  unfolding Kept Inv
  check_id-Kept resource id c named h =
      let r = seen_recently resource id now c.seen in
      let left : Left resource id c.seen r.0 = seen_recently-Left resource id c.seen named h.0 in
      elim (Bool-cases (any (λ other. other == id) c.this_request)) [
        | inl again ↦
            let at : check_id resource now id c ≡ (c, true) =
              unfold check_id in rw (named, again) refl in
            rw at (h, any-Known resource id c.this_request c.seen h.1 again, λ k old. old)
        | inr first ↦
            unfold Left in
            let ids = All-keep resource c.this_request c.seen r.0 left.2 h.1 in
            elim (Bool-cases r.1) [
              | inl recent ↦
                  let at : check_id resource now id c ≡ (record c { seen = r.0 }, true) =
                    unfold check_id in rw (named, first, recent) refl in
                  rw at ((left.0, ids), left.1, left.2)
              | inr new ↦
                  let at : check_id resource now id c
                      ≡ (record c { seen = r.0; this_request = id ∷ c.this_request }, false) =
                    unfold check_id in rw (named, first, new) refl in
                  rw at ((left.0, (left.1, ids)), left.1, left.2)
            ]
      ]
