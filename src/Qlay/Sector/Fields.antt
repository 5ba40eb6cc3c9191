-- ===== src/Qlay/Sector/Fields.antt =====
-- src/qlay.c: the numbers in the headers of an encoded sector.
use qlvgm.Prelude.{ℕ, ◌≡◌, arith, ◌∙◌, List, [], ◌∷◌, inl}
use qlvgm.Qlay.Bytes.{Array}
use qlvgm.Qlay.Bytes.Laws.{put-below, put-at, fill-below, write_le16-below, write_be16-outside}
use qlvgm.Qlay.Sector.{sector_header, block_header, encode_sector}
use qlvgm.Qlay.Sector.Sealed.{block_header-below, data_block-below}

module _ (logical random_id file_id block : ℕ) (medium_name payload : List ℕ) where
  abbrev sector : Array
  sector = encode_sector logical medium_name random_id file_id block payload

  pub encode_sector-logical : sector 13 ≡ logical
  unfolding encode_sector sector_header
  encode_sector-logical =
      fill-below 566 0x5A 120 _ 13 (omega arith)
      ∙ data_block-below payload _ 13 (omega arith)
      ∙ block_header-below file_id block _ 13 (omega arith)
      ∙ write_le16-below 26 _ _ 13 (omega arith)
      ∙ write_be16-outside 24 random_id _ 13 (inl (omega arith))
      ∙ put-below 14 medium_name _ 13 (omega arith)
      ∙ put-at 12 (0xFF ∷ logical ∷ []) _ 1 (omega arith)

  pub encode_sector-file_id : sector 40 ≡ file_id
  unfolding encode_sector block_header
  encode_sector-file_id =
      fill-below 566 0x5A 120 _ 40 (omega arith)
      ∙ data_block-below payload _ 40 (omega arith)
      ∙ write_le16-below 42 _ _ 40 (omega arith)
      ∙ put-at 40 (file_id ∷ block ∷ []) _ 0 (omega arith)

  pub encode_sector-block : sector 41 ≡ block
  unfolding encode_sector block_header
  encode_sector-block =
      fill-below 566 0x5A 120 _ 41 (omega arith)
      ∙ data_block-below payload _ 41 (omega arith)
      ∙ write_le16-below 42 _ _ 41 (omega arith)
      ∙ put-at 40 (file_id ∷ block ∷ []) _ 1 (omega arith)
