-- ===== src/Sync/Manifest/Current.antt =====
-- The manifest shows each record's current view.
use searxng_wth_frnds.Prelude.{
  ℕ, String, Bool, true, false, Option, none, some, List, [], ◌∷◌, ◌≡◌, refl, sym, ap, ◌∙◌, inl,
  inr, ◌==◌, nat_eq, string_eq, keep, In, In-keep, keep-In, Bool-cases, ==→eq, eq→==,
}
use searxng_wth_frnds.Prelude.Dict
use searxng_wth_frnds.Prelude.Dict.{Dict, lookup-insert, lookup-nil}
use searxng_wth_frnds.Prelude.Sorting.{sort_by, In-sort_by, sort_by-In}
use searxng_wth_frnds.Sync.Envelope.{Envelope}
use searxng_wth_frnds.Sync.Store.{Row, AuthorRow, Tables, latest_envelope}
use searxng_wth_frnds.Sync.Store.Latest.{IsLatest, latest_envelope-IsLatest}
use searxng_wth_frnds.Sync.Manifest.{
  is_record_forked, is_top, Meta, meta_of, add_rows, by_record_id, build_manifest,
}
use searxng_wth_frnds.Sync.Manifest.Page.{stamp}
use searxng_wth_frnds.Prelude.Checks.{both_ways}
use searxng_wth_frnds.Sync.Manifest.Top.{is_top-stamp, newest-is_top}

-- What the loop over rows leaves under a key: an entry of an unforked row of that key, or what was there.
record IsAdded (as' : List AuthorRow) (rows : List Row) (record_id : String) (m : Meta)
    : Type 0 where
  row : Row
  stands : In row rows
  of_record : row.envelope.record_id ≡ record_id
  unforked : is_record_forked record_id as' ≡ false
  entry : meta_of row.envelope ≡ m

abbrev IsSkipped : List AuthorRow → List Row → String → Type 0
IsSkipped as' rows record_id =
    (r : Row) → In r rows → r.envelope.record_id ≡ record_id → is_record_forked record_id as' ≡ true

data Added (as' : List AuthorRow) (rows : List Row) (record_id : String)
    (before after : Option Meta) : Type 0 where
  entered :
      (m : Meta)
      → after ≡ some m
      → IsAdded as' rows record_id m
      → Added as' rows record_id before after
  skipped : after ≡ before → IsSkipped as' rows record_id → Added as' rows record_id before after

add_rows-Added :
    (as' : List AuthorRow) (rows : List Row) (d : Dict Meta) (record_id : String)
    → Added as' rows record_id
        (Dict.lookup record_id d)
        (Dict.lookup record_id (add_rows as' rows d))
unfolding add_rows
add_rows-Added as' [] d record_id = skipped refl (λ r i e. absurd i)
add_rows-Added as' (r ∷ rows) d record_id =
    elim (Bool-cases (is_record_forked r.envelope.record_id as')) [
      | inl forked ↦ rw forked (over forked (add_rows-Added as' rows d record_id))
      | inr free ↦ rw free (
          into free (
            add_rows-Added as' rows (Dict.insert r.envelope.record_id (meta_of r.envelope) d)
              record_id))
    ]
  where
    skip_cons :
        (r.envelope.record_id ≡ record_id → is_record_forked record_id as' ≡ true)
        → IsSkipped as' rows record_id
        → IsSkipped as' (r ∷ rows) record_id
    skip_cons here s q (inl e) f = here (rw (← e) f)
    skip_cons here s q (inr i) f = s q i f

    later : {m : Meta} → IsAdded as' rows record_id m → IsAdded as' (r ∷ rows) record_id m
    later a = record {
      row = a.row;
      stands = inr a.stands;
      of_record = a.of_record;
      unforked = a.unforked;
      entry = a.entry;
    }

    over :
        {before after : Option Meta}
        → is_record_forked r.envelope.record_id as' ≡ true
        → Added as' rows record_id before after
        → Added as' (r ∷ rows) record_id before after
    over forked (entered m e a) = entered m e (later a)
    over forked (skipped e s) =
        skipped e (skip_cons (λ same. ap (λ x. is_record_forked x as') (sym same) ∙ forked) s)

    into :
        {after : Option Meta}
        → is_record_forked r.envelope.record_id as' ≡ false
        → Added as' rows record_id
            (Dict.lookup record_id (Dict.insert r.envelope.record_id (meta_of r.envelope) d))
            after
        → Added as' (r ∷ rows) record_id (Dict.lookup record_id d) after
    into free (entered m e a) = entered m e (later a)
    into free (skipped e s) =
        let found = e ∙ lookup-insert r.envelope.record_id record_id (meta_of r.envelope) d in
        elim (Bool-cases (r.envelope.record_id == record_id)) [
          | inl y ↦
              let of_record = ==→eq r.envelope.record_id record_id y in
              entered (meta_of r.envelope) (rw y at found) (record {
                row = r;
                stands = inl refl;
                of_record = of_record;
                unforked = ap (λ x. is_record_forked x as') (sym of_record) ∙ free;
                entry = refl;
              })
          | inr n ↦
              skipped (rw n at found) (skip_cons (λ same. absurd (both_ways n (eq→== _ _ same))) s)
        ]

abbrev pub map_stamp : Option Meta → Option (ℕ × String)
map_stamp none = none
map_stamp (some m) = some (m.latest_wall_ts_ms, m.latest_content_hash)

abbrev pub current_stamp : Option Envelope → Option (ℕ × String)
current_stamp none = none
current_stamp (some e) = some (stamp e)

abbrev pub unless_forked : Bool → Option (ℕ × String) → Option (ℕ × String)
unless_forked true s = none
unless_forked false s = s

nothing_shown : (b : Bool) → none ≡ unless_forked b none
nothing_shown true = refl
nothing_shown false = refl

-- The manifest, which selects with two `MAX`, shows of each record the time and the hash of its current
-- envelope, which is the first by time and hash, unless the record is marked as forked or has no row:
-- then it shows nothing of it.
pub build_manifest-latest_envelope :
    (t : Tables) (record_id : String)
    → map_stamp (Dict.lookup record_id (build_manifest t))
      ≡ unless_forked
          (is_record_forked record_id t.authors)
          (current_stamp (latest_envelope record_id t.records))
unfolding build_manifest
build_manifest-latest_envelope t record_id =
    go _ (latest_envelope record_id t.records) (add_rows-Added t.authors chosen [] record_id)
      (latest_envelope-IsLatest record_id t.records)
  where
    chosen : List Row
    chosen = sort_by by_record_id (keep (is_top t.records) t.records)

    chosen-is_top : (r : Row) → In r chosen → In r t.records × (is_top t.records r ≡ true)
    chosen-is_top r i = keep-In (is_top t.records) r t.records (sort_by-In by_record_id r _ i)

    go :
        (shown : Option Meta) (latest : Option Envelope)
        → Added t.authors chosen record_id (Dict.lookup record_id []) shown
        → IsLatest record_id t.records latest
        → map_stamp shown
          ≡ unless_forked (is_record_forked record_id t.authors) (current_stamp latest)
    go shown none (entered m e a) l =
        let (i, top) = chosen-is_top a.row a.stands in absurd (l a.row i a.of_record)
    go shown (some m) (entered x e a) l =
        let (i, top) = chosen-is_top a.row a.stands in
        let same = is_top-stamp record_id t.records m l a.row a.of_record top in
        ap map_stamp (e ∙ ap some (sym a.entry))
        ∙ ap some same
        ∙ sym (ap (λ b. unless_forked b (some (stamp m))) a.unforked)
    go shown none (skipped e s) l =
        ap map_stamp (e ∙ lookup-nil record_id)
        ∙ nothing_shown (is_record_forked record_id t.authors)
    go shown (some m) (skipped e s) l =
        let (r, i, same) = l.stored in
        let top = newest-is_top record_id t.records m l r same in
        let selected = In-sort_by by_record_id r _ (In-keep (is_top t.records) r t.records i top) in
        let forked = s r selected (ap (λ e. e.record_id) same ∙ l.of_record) in
        ap map_stamp (e ∙ lookup-nil record_id)
        ∙ sym (ap (λ b. unless_forked b (some (stamp m))) forked)
