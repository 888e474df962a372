-- ===== src/Ffmpeg/Idet/Laws.antt =====
-- When an idet sample says that a source is interlaced.
use codarr.Prelude.{◌+◌, ◌<◌, ◌≡◌, ◌↔◌, arith, ◌==◌, if◌then◌else◌}
use codarr.Domain.Plan.{interlaced}
use codarr.Ffmpeg.Idet.{IdetCounts, total, scan_of}

-- The counters call a source interlaced exactly when its interlaced frames are more than its
-- progressive ones, by the multi frame line, or by the single frame line if that one counted none.
pub scan_of_iff :
    (multi single : IdetCounts)
    → let c = if total multi == 0 then single else multi in
      (scan_of (multi, single) ≡ interlaced) ↔ (c.progressive_frames < c.tff + c.bff)
unfolding scan_of
scan_of_iff multi single = ground arith
