-- ===== src/File/Chosen.antt =====
-- src/H5VL_log_filei.cpp: lemmas on the bits that the settings of a file set and clear.
use vol_log_based.Prelude.{ℕ, ◌+◌, ◌≡◌, refl, arith, Option, none, some}
use vol_log_based.Prelude.{
  Bool, true, false, ◌&&◌, ◌==◌, if◌then◌else◌, bit_and, bit_or, bit_xor, &&_iff, ==_iff,
}
use vol_log_based.Config
use vol_log_based.File.Settings.{setting, chosen, Fapl, parse_fapl}

-- The bits of one setting over what is set so far: it is set as chosen.
abbrev Decides : ℕ → ℕ → Type 0
Decides bit config =
    (property : Bool) (env : Option Bool)
    → setting bit property env config ≡ config + (if chosen property env then bit else 0)

decides :
    (bit config : ℕ)
    → bit_or config bit ≡ config + bit
    → bit_or (config + bit) bit ≡ config + bit
    → bit_and (config + bit) (bit_xor bit 0xffffffff) ≡ config
    → bit_and config (bit_xor bit 0xffffffff) ≡ config
    → Decides bit config
unfolding setting
decides bit config on again off kept true none = on
decides bit config on again off kept false none = omega arith
decides bit config on again off kept true (some true) = rw (on, again)
decides bit config on again off kept true (some false) = rw (on, off) (omega arith)
decides bit config on again off kept false (some true) = on
decides bit config on again off kept false (some false) = rw kept (omega arith)

-- A test that holds for both truth values.
abbrev each : (Bool → Bool) → Bool
each p = p true && p false

each-all : (p : Bool → Bool) → each p ≡ true → (b : Bool) → p b ≡ true
each-all p h true = ((&&_iff (p true) (p false)).0 h).0
each-all p h false = ((&&_iff (p true) (p false)).0 h).1

-- The four equations on bits, as a test.
abbrev independent : ℕ → ℕ → Bool
independent bit config =
    ((bit_or config bit == config + bit) && (bit_or (config + bit) bit == config + bit))
    && ((bit_and (config + bit) (bit_xor bit 0xffffffff) == config)
        && (bit_and config (bit_xor bit 0xffffffff) == config))

independent-Decides : (bit config : ℕ) → independent bit config ≡ true → Decides bit config
independent-Decides bit config h =
    let (a, b) = (&&_iff _ _).0 h in
    let (a1, a2) = (&&_iff _ _).0 a in
    let (b1, b2) = (&&_iff _ _).0 b in
    decides bit config ((==_iff _ _).0 a1) ((==_iff _ _).0 a2) ((==_iff _ _).0 b1)
      ((==_iff _ _).0 b2)

abbrev pub bits : Bool → ℕ → ℕ
bits b bit = if b then bit else 0

-- What stands in the configuration before each setting.
abbrev pub up_to_share : Bool → Bool → ℕ
up_to_share m s = 0 + bits m 0x01 + bits s 0x08

abbrev pub up_to_encode : Bool → Bool → Bool → Bool → ℕ
up_to_encode m s z e = up_to_share m s + bits z 0x04 + bits e 0x02

share_step : (m : Bool) → Decides Config.metadata_share (0 + bits m 0x01)
share_step m =
    independent-Decides Config.metadata_share (0 + bits m 0x01)
      (each-all (λ m. independent Config.metadata_share (0 + bits m 0x01)) refl m)

zip_step : (m s : Bool) → Decides Config.sel_deflate (up_to_share m s)
zip_step m s = independent-Decides Config.sel_deflate (up_to_share m s) (
    each-all (λ s. independent Config.sel_deflate (up_to_share m s))
      (each-all (λ m. each (λ s. independent Config.sel_deflate (up_to_share m s))) refl m) s)

encode_step : (m s z : Bool) → Decides Config.sel_encode (up_to_share m s + bits z 0x04)
encode_step m s z =
    let test = λ (m s z : Bool). independent Config.sel_encode (up_to_share m s + bits z 0x04) in
    independent-Decides Config.sel_encode (up_to_share m s + bits z 0x04) (
      each-all (test m s)
        (each-all (λ s. each (test m s)) (each-all (λ m. each (λ s. each (test m s))) refl m) s) z)

single_step : (m s z e : Bool) → Decides Config.single_subfile_read (up_to_encode m s z e)
single_step m s z e =
    let test = λ (m s z e : Bool). independent Config.single_subfile_read (up_to_encode m s z e) in
    independent-Decides Config.single_subfile_read (up_to_encode m s z e) (
      each-all (test m s z)
        (each-all (λ z. each (test m s z))
          (each-all (λ s. each (λ z. each (test m s z)))
            (each-all (λ m. each (λ s. each (λ z. each (test m s z)))) refl m) s)
          z)
        e)

passthru_step : (m s z e r : Bool) → Decides Config.passthru (up_to_encode m s z e + bits r 0x400)
passthru_step m s z e r =
    let test =
      λ (m s z e r : Bool). independent Config.passthru (up_to_encode m s z e + bits r 0x400) in
    independent-Decides Config.passthru (up_to_encode m s z e + bits r 0x400) (
      each-all (test m s z e)
        (each-all (λ e. each (test m s z e))
          (each-all (λ z. each (λ e. each (test m s z e)))
            (each-all (λ s. each (λ z. each (λ e. each (test m s z e))))
              (each-all (λ m. each (λ s. each (λ z. each (λ e. each (test m s z e))))) refl m) s)
            z)
          e)
        r)

merge_step : Decides Config.metadata_merge 0
merge_step = independent-Decides Config.metadata_merge 0 refl

-- For a file whose configuration starts empty, each of the six settings of the access property
-- list and the environment is set by its own bit and touches no other: the configuration is the
-- sum of the bits whose environment variable says so, or, where the variable is not set, whose
-- property says so.
pub parse_fapl-chosen :
    (f : Fapl)
    → (parse_fapl f 0).config
      ≡ up_to_encode
          (chosen f.merge f.merge_env)
          (chosen f.share f.share_env)
          (chosen f.zip f.zip_env)
          (chosen f.encoding_offset f.encoding_env)
        + bits (chosen f.single_subfile f.single_subfile_env) 0x400
        + bits (chosen f.passthru f.passthru_env) 0x10
unfolding parse_fapl
parse_fapl-chosen f =
    let m = chosen f.merge f.merge_env in
    let s = chosen f.share f.share_env in
    let z = chosen f.zip f.zip_env in
    let e = chosen f.encoding_offset f.encoding_env in
    let r = chosen f.single_subfile f.single_subfile_env in
    rw
      (
        merge_step f.merge f.merge_env,
        share_step m f.share f.share_env,
        zip_step m s f.zip f.zip_env,
        encode_step m s z f.encoding_offset f.encoding_env,
        single_step m s z e f.single_subfile f.single_subfile_env,
      )
      (passthru_step m s z e r f.passthru f.passthru_env)
