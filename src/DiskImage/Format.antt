-- ===== src/DiskImage/Format.antt =====
-- The format of an image that opens, and of the sample image.
use tenclaw.Base.{
  ◌≡◌, refl, sym, ap, ◌∙◌, ◌≢◌, inl, inr, Bool, not, Option, none, some, arith, ◌==◌, if◌then◌else◌,
  Bool-cases, Option-cases, length, some_inj,
}
use tenclaw.Memory.{load_bytes}
use tenclaw.RawImage.{FileOps, RawImage, open_raw}
use tenclaw.Qcow2.{Qcow2, be_value, decode_table}
use tenclaw.Qcow2.Header.{
  qcow2_magic, open_qcow2, read_header, read_l1_table, read_compression_type, field,
}
use tenclaw.Qcow2.Sample.{grow_file, image}
use tenclaw.DiskImage.{DiskImage, raw, qcow2, create}

abbrev raw_of : {F : Type 0} → RawImage F → DiskImage F → RawImage F
raw_of d (raw img) = img
raw_of d (qcow2 q) = d

raw_inj : {F : Type 0} → {i j : RawImage F} → raw i ≡ raw j → i ≡ j
raw_inj {i = i} e = ap (raw_of i) e

-- A file that opens as a raw image does not start with the magic number of the other format.
pub create-raw :
    {F : Type 0}
    → (ops : FileOps F) (file : F) (img : RawImage F) → create ops file ≡ some (raw img)
    → (be_value (ops.fread file 0 4) ≢ qcow2_magic) × (open_raw ops file ≡ some img)
unfolding create
create-raw {F = F} ops file img e =
    let magic = ops.fread file 0 4 in
    let as_qcow2 : Option (Qcow2 F) → Option (DiskImage F) =
      λ o. elim o [ none ↦ none | some q ↦ some (qcow2 q) ] in
    let as_raw : Option (RawImage F) → Option (DiskImage F) =
      λ o. elim o [ none ↦ none | some i ↦ some (raw i) ] in
    let chosen : Bool → Option (DiskImage F) =
      λ b. if b then as_qcow2 (open_qcow2 ops file) else as_raw (open_raw ops file) in
    let sized : Bool → Option (DiskImage F) =
      λ b. if not b then none else chosen (be_value magic == qcow2_magic) in
    elim (Bool-cases (length magic == 4)) [
      | inr short ↦
          absurd (let z : none ≡ some (raw img) = sym (ap sized short) ∙ e in ground arith)
      | inl long ↦
          let e1 : chosen (be_value magic == qcow2_magic) ≡ some (raw img) =
            sym (ap sized long) ∙ e in
          elim (Bool-cases (be_value magic == qcow2_magic)) [
            | inl yes_ ↦
                let e2 : as_qcow2 (open_qcow2 ops file) ≡ some (raw img) =
                  sym (ap chosen yes_) ∙ e1 in
                absurd (elim (Option-cases (open_qcow2 ops file)) [
                  | inl n ↦
                      (let z : none ≡ some (raw img) = sym (ap as_qcow2 n) ∙ e2 in ground arith)
                  | inr (q, s) ↦
                      (let z : some (qcow2 q) ≡ some (raw img) = sym (ap as_qcow2 s) ∙ e2 in
                        ground arith)
                ])
            | inr no_ ↦
                let e2 : as_raw (open_raw ops file) ≡ some (raw img) = sym (ap chosen no_) ∙ e1 in
                elim (Option-cases (open_raw ops file)) [
                  | inl n ↦
                      absurd
                        (let z : none ≡ some (raw img) = sym (ap as_raw n) ∙ e2 in ground arith)
                  | inr (i, s) ↦
                      let z : raw i ≡ raw img = some_inj (sym (ap as_raw s) ∙ e2) in
                      ((λ m. ground arith), s ∙ ap some (raw_inj z))
                ]
          ]
    ]

detects_qcow2 : create grow_file image.file ≡ some (qcow2 image)
unfolding create field open_qcow2 read_header read_l1_table read_compression_type decode_table
    load_bytes
detects_qcow2 = refl
