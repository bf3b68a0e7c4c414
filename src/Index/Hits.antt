-- ===== src/Index/Hits.antt =====
-- src/H5VL_logi_idx_list.cpp, src/H5VL_logi_idx_compact.cpp: lemmas on the hits of one entry in the
-- two index classes.
mod Packed
use vol_log_based.Prelude.{ℕ, zero, suc, ◌+◌, ◌-◌, ◌*◌, ◌%◌, ◌^◌, ◌≤◌, ◌<◌, ◌≡◌, refl, ap, ◌∙◌}
use vol_log_based.Prelude.{List, [], ◌∷◌, ◌++◌, map, Bool, true, false, Option, none, some, All}
use vol_log_based.Prelude.{hd, tl, extent, memcpy, add64, mul64, sub64, to_int, min, max, leb, ltb}
use vol_log_based.Prelude.{
  length, drop, not, ◌||◌, if◌then◌else◌, drop-memcpy, extent-memcpy, arith,
}
use vol_log_based.Prelude.{Bool-cases, inl, inr, lt→ltb, tests, sym, get_or}
use vol_log_based.Selections.{Block, extent_of}
use vol_log_based.Meta.{MetaSel, MetaEntry, has_flag, rec}
use vol_log_based.Index.{ReadReq, SearchRet, intersect, int_diffs, ints, push_hit}
use vol_log_based.Index.Array
use vol_log_based.Index.Compact
use vol_log_based.Index.Compact.{CompactEntry, own_entry, first_start, pack, int_ltb}
use Packed.{intersect-memcpy, ints-memcpy, int_diffs-memcpy, drop-one}
use mathlib.Core.Option

-- The offset of each selection's data is the size of the data before it, and the data of the
-- first selection lies at `d`.
abbrev pub IsChained : ℕ → ℕ → ℕ → List MetaSel → Type 0
IsChained ndim esize d [] = Unit
IsChained ndim esize d (m ∷ ms) =
    (m.doff ≡ d) × IsChained ndim esize (add64 d (extent ndim esize m.count)) ms

-- All selections of a record entry are in record `r`.
abbrev pub InRecord : ℕ → List MetaSel → Type 0
InRecord r ms = All (λ (m : MetaSel). (hd m.start ≡ r) × (hd m.count ≡ 1)) ms

-- What an entry with the record flag satisfies.
abbrev pub IsRecord : Bool → ℕ → List MetaSel → Type 0
IsRecord false ndim ms = Unit
IsRecord true ndim ms = (1 ≤ ndim) × InRecord (first_start ms) ms × (first_start ms < 2 ^ 31)

-- An entry of a dataset of `ndim` dimensions and element size `esize`, as decoding makes it.
abbrev pub IsEntry : ℕ → ℕ → MetaEntry → Type 0
IsEntry ndim esize e =
    IsChained ndim esize 0 e.sels × IsRecord (has_flag e.hdr.flag rec) ndim e.sels

-- The block's first dimension ends below 2 ^ 31, so that its coordinates are values of `int`.
abbrev pub IsSmall : Block → Type 0
IsSmall b = hd b.start + hd b.count < 2 ^ 31

extent_rec :
    (n ndim esize : ℕ) (cs : List ℕ)
    → ndim ≡ suc n
    → hd cs ≡ 1
    → esize < 2 ^ 64
    → extent ndim esize cs ≡ extent n esize (tl cs)
extent_rec n ndim esize cs en one h =
    let same : mul64 esize 1 ≡ esize = omega arith in rw (en, one, same)

module _ (req : ReadReq) (esize soff : ℕ) (b : Block) where
  -- A compact entry without a record number, over the packed selections.
  plain_eq :
      (meta : MetaEntry) (ent : CompactEntry) (ms : List MetaSel) (d : ℕ) (later : List SearchRet)
      → ent.foff ≡ meta.hdr.foff
      → ent.fsize ≡ meta.hdr.fsize
      → ent.dsize ≡ meta.dsize
      → IsChained req.ndim esize d ms
      → Compact.search_plain req esize soff b ent req.ndim (length ms) (pack 0 req.ndim ms) d later
        ≡ Array.search_sels req soff b meta ms later
  unfolding Compact.search_plain pack Array.search_sels Array.search_sel
  plain_eq meta ent [] d later ef es ed h = refl
  plain_eq meta ent (m ∷ ms) d later ef es ed (hd', h) = simp (
    drop-memcpy req.ndim m.start,
    drop-memcpy req.ndim m.count,
    intersect-memcpy,
    ints-memcpy,
    int_diffs-memcpy,
    extent-memcpy,
    plain_eq meta ent ms (add64 d (extent req.ndim esize m.count)) later ef es ed h,
    ef,
    es,
    ed,
    hd',
  )

  -- What `intersect` and the record-number test make of one dimension of extent 1.
  rec_hit :
      (r s c : ℕ)
      → r < 2 ^ 31
      → s + c < 2 ^ 31
      → int_ltb (to_int (sub64 r s)) 0 || not (int_ltb (to_int (sub64 r s)) (to_int c)) ≡ false
      → (leb (min (add64 r 1) (add64 s c)) (max r s) ≡ false)
        × (max r s ≡ r)
        × (min (add64 r 1) (add64 s c) - max r s ≡ 1)
  rec_hit r s c hr hs e = ground arith

  rec_miss :
      (r s c : ℕ)
      → r < 2 ^ 31
      → s + c < 2 ^ 31
      → int_ltb (to_int (sub64 r s)) 0 || not (int_ltb (to_int (sub64 r s)) (to_int c)) ≡ true
      → leb (min (add64 r 1) (add64 s c)) (max r s) ≡ true
  rec_miss r s c hr hs e = ground arith

  -- No selection of a record entry meets the block if its record is not in the block.
  rec_skip :
      (n : ℕ) (meta : MetaEntry) (ms : List MetaSel) (r : ℕ) (later : List SearchRet)
      → req.ndim ≡ suc n
      → InRecord r ms
      → leb (min (add64 r 1) (add64 (hd b.start) (hd b.count))) (max r (hd b.start)) ≡ true
      → Array.search_sels req soff b meta ms later ≡ later
  unfolding Array.search_sels Array.search_sel intersect
  rec_skip n meta [] r later en hr miss = refl
  rec_skip n meta (m ∷ ms) r later en ((es, ec), hr) miss =
      simp (en, es, ec, miss) (rec_skip n meta ms r later en hr miss)

  rec_intersect :
      (n r : ℕ) (m : MetaSel)
      → hd m.start ≡ r
      → hd m.count ≡ 1
      → leb (min (add64 r 1) (add64 (hd b.start) (hd b.count))) (max r (hd b.start)) ≡ false
      → max r (hd b.start) ≡ r
      → min (add64 r 1) (add64 (hd b.start) (hd b.count)) - max r (hd b.start) ≡ 1
      → intersect (suc n) m.start m.count b.start b.count
        ≡ Option.map
            (λ (p : List ℕ × List ℕ). (r ∷ p.0, 1 ∷ p.1))
            (intersect n (tl m.start) (tl m.count) (tl b.start) (tl b.count))
  unfolding intersect
  rec_intersect n r m rs rc meet lo one = rw (rs, rc, meet, one, lo)

  -- The hit of one selection of a record entry, in both indexes.
  rec_sel :
      (n : ℕ) (meta : MetaEntry) (ent : CompactEntry) (m : MetaSel) (d : ℕ) (later : List SearchRet)
      (o : Option (List ℕ × List ℕ))
      → ent.foff ≡ meta.hdr.foff
      → ent.fsize ≡ meta.hdr.fsize
      → ent.dsize ≡ meta.dsize
      → req.ndim ≡ suc n
      → hd m.start ≡ ent.rec
      → hd m.count ≡ 1
      → m.doff ≡ d
      → intersect (suc n) m.start m.count b.start b.count
        ≡ Option.map (λ (p : List ℕ × List ℕ). (ent.rec ∷ p.0, 1 ∷ p.1)) o
      → push_hit
          (Option.map
            (λ (p : List ℕ × List ℕ). record {
              info = req.info;
              dsize = 1 ∷ ints n (tl m.count);
              dstart = 0 ∷ int_diffs n p.0 (tl m.start);
              msize = to_int (hd b.count) ∷ ints n (tl b.count);
              mstart = to_int (sub64 ent.rec (hd b.start)) ∷ int_diffs n p.0 (tl b.start);
              count = 1 ∷ ints n p.1;
              xsize = ent.dsize;
              doff = d;
              xbuf = req.xbuf + soff;
              foff = ent.foff;
              fsize = ent.fsize;
            })
            o)
          later
        ≡ Array.search_sel req soff b meta m later
  unfolding Array.search_sel
  rec_sel n meta ent m d later none ef es ed en rs rc hd' e = simp (en, e)
  rec_sel n meta ent m d later (some p) ef es ed en rs rc hd' e =
      let same : to_int (sub64 ent.rec ent.rec) ≡ 0 = omega arith in
      simp (en, e, ef, es, ed, rs, rc, hd', same)

  -- A compact entry of record `r` in the block, over the packed selections.
  rec_eq :
      (n : ℕ) (meta : MetaEntry) (ent : CompactEntry) (ms : List MetaSel) (d : ℕ)
      (later : List SearchRet)
      → ent.foff ≡ meta.hdr.foff
      → ent.fsize ≡ meta.hdr.fsize
      → ent.dsize ≡ meta.dsize
      → req.ndim ≡ suc n
      → esize < 2 ^ 64
      → InRecord ent.rec ms
      → IsChained req.ndim esize d ms
      → leb (min (add64 ent.rec 1) (add64 (hd b.start) (hd b.count))) (max ent.rec (hd b.start))
        ≡ false
      → max ent.rec (hd b.start) ≡ ent.rec
      → min (add64 ent.rec 1) (add64 (hd b.start) (hd b.count)) - max ent.rec (hd b.start) ≡ 1
      → Compact.search_rec req esize soff b ent n (length ms) (pack 1 n ms) d later
        ≡ Array.search_sels req soff b meta ms later
  unfolding Compact.search_rec pack Array.search_sels
  rec_eq n meta ent [] d later ef es ed en hz hr h meet lo one = refl
  rec_eq n meta ent (m ∷ ms) d later ef es ed en hz ((rs, rc), hr) (hd', h) meet lo one =
      simp
        (
          drop-memcpy n (drop 1 m.start),
          drop-memcpy n (drop 1 m.count),
          intersect-memcpy,
          ints-memcpy,
          int_diffs-memcpy,
          extent-memcpy,
          drop-one,
          rec_eq n meta ent ms (add64 d (extent n esize (tl m.count))) later ef es ed en hz hr
              (rw (extent_rec n req.ndim esize m.count en rc hz) at h) meet lo one,
        )
        (rec_sel n meta ent m d _ _ ef es ed en rs rc hd'
          (rec_intersect n ent.rec m rs rc meet lo one))

  -- One entry, whatever its flag.
  entry_eq :
      (flag : Bool) (meta : MetaEntry) (later : List SearchRet)
      → has_flag meta.hdr.flag rec ≡ flag
      → esize < 2 ^ 64
      → IsSmall b
      → IsChained req.ndim esize 0 meta.sels
      → IsRecord flag req.ndim meta.sels
      → Compact.search_entry req esize soff b
          (own_entry req.ndim meta)
          (own_entry req.ndim meta).blocks
          later
        ≡ some (Array.search_sels req soff b meta meta.sels later)
  unfolding Compact.search_entry Compact.search_array own_entry
  entry_eq false meta later e hz hb hc hr =
      let ent : CompactEntry = record {
        rec = Compact.minus_one;
        blocks = Compact.own (length meta.sels) (pack 0 req.ndim meta.sels);
        foff = meta.hdr.foff;
        fsize = meta.hdr.fsize;
        dsize = meta.dsize;
      } in
      rw e (ap some (plain_eq meta ent meta.sels 0 later refl refl refl hc))
  entry_eq true meta later e hz hb hc (pos, hr, small) =
      let r = first_start meta.sels in
      let ent : CompactEntry = record {
        rec = r;
        blocks = Compact.own (length meta.sels) (pack 1 (req.ndim - 1) meta.sels);
        foff = meta.hdr.foff;
        fsize = meta.hdr.fsize;
        dsize = meta.dsize;
      } in
      let en : req.ndim ≡ suc (req.ndim - 1) = omega arith in
      let numbered : ltb r (2 ^ 63) ≡ true = lt→ltb r (2 ^ 63) (omega arith) in
      elim (Bool-cases (
        int_ltb (to_int (sub64 r (hd b.start))) 0
        || not (int_ltb (to_int (sub64 r (hd b.start))) (to_int (hd b.count))))) [
          | inl out ↦
              rw (e, numbered, out)
                (ap some (
                  sym (
                    rec_skip (req.ndim - 1) meta meta.sels r later en hr
                      (rec_miss r (hd b.start) (hd b.count) small hb out))))
          | inr inside ↦
              let (meet, lo, one) = rec_hit r (hd b.start) (hd b.count) small hb inside in
              rw (e, numbered, inside)
                (ap some (
                  rec_eq (req.ndim - 1) meta ent meta.sels 0 later refl refl refl en hz hr hc meet
                    lo one))
        ]

  -- All entries of a dataset.
  pub ents_eq :
      (ents : List MetaEntry) (later : List SearchRet)
      → esize < 2 ^ 64
      → IsSmall b
      → All (IsEntry req.ndim esize) ents
      → Compact.search_ents req esize soff b (map (own_entry req.ndim) ents) later
        ≡ some (Array.search_ents req soff b ents later)
  unfolding Compact.search_ents Array.search_ents Option.bind
  ents_eq [] later hz hb h = refl
  ents_eq (e ∷ es) later hz hb ((hc, hr), h) = rw (ents_eq es later hz hb h) (
      entry_eq (has_flag e.hdr.flag rec) e (Array.search_ents req soff b es later) refl hz hb hc hr)
