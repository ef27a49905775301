-- ===== src/Table/Examples.antt =====
-- src/table/table_footer.rs on one footer.
use pulsearc_db.Base.{[], ◌∷◌, ◌++◌, ◌≡◌, arith}
use pulsearc_db.Result.{ok}
use pulsearc_db.Table.{TableFooter, encode_footer, decode_footer}
use pulsearc_db.Table.Footer.{IsFooter, decode_footer-encode_footer}

abbrev footer : TableFooter
footer = record {
  metaindex = record { offset = 4096; size = 30 };
  index = record { offset = 4131; size = 900 };
}

footer-IsFooter : IsFooter footer
footer-IsFooter = record {
  metaindex_fits = record { offset_fits = omega arith; size_fits = omega arith };
  index_fits = record { offset_fits = omega arith; size_fits = omega arith };
}

decode_footer-encode_footer_example :
    decode_footer (encode_footer footer [] ++ 7 ∷ []) ≡ ok (footer, 7 ∷ [])
decode_footer-encode_footer_example = decode_footer-encode_footer footer (7 ∷ []) footer-IsFooter
