-- ===== src/Jobs/Promotion.antt =====
-- internal/pkg/store/media.go, RecordPromotion: the transaction that ends a job whose output replaced
-- the source, as far as it writes the columns of the queue. The text of ffmpeg's errors, a column that
-- it leaves alone, is part of the failure here and goes with it.
use codarr.Prelude.{ℕ, List, Option, none, some, Result, ok, err, find_first, ◌==◌}
use codarr.Jobs.Types.{done, media_done, Media, Store, StoreError, not_found}
use codarr.Jobs.Rows.{set_media, update_row, mark_media, and_then, finish_row}

abbrev pub find_media : ℕ → List Media → Option Media
find_media id ms = find_first (λ (m : Media). m.id == id) ms

abbrev pub promoted : Media → Media
promoted m = record { id = m.id; status = media_done; last_error = "" }

-- Both rows must exist; when the second does not, the first is rolled back.
unfoldable pub record_promoted : ℕ → ℕ → ℕ → Store → Result StoreError Store
unfolding update_row set_media
record_promoted id media_file_id now s =
    and_then (update_row id (finish_row done now none) s) (λ s'.
      elim (find_media media_file_id s'.media) [
        | none ↦ err not_found
        | some m ↦ ok (mark_media media_file_id promoted s')
      ])
