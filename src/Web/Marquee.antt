-- ===== src/Web/Marquee.antt =====
-- web/src/components/MarqueeText.vue: how far and for how long a long text slides.
use windsurf_to_api_go.Prelude.{ℕ, ◌+◌, ◌-◌, ◌*◌, Option, none, some, ltb, if◌then◌else◌}
use windsurf_to_api_go.Prelude.Numbers.{ℤ, pos, negsuc, Fraction}
use windsurf_to_api_go.Web.Views.Page.{or_value}

pub record Marquee : Type 0 where
  pub shift : ℤ
  pub duration : Fraction

-- `Math.max(0.8, distance / speed)`, for a positive speed.
abbrev slide_time : ℕ → ℕ → Fraction
slide_time distance speed =
    if ltb (4 * speed) (5 * distance)
    then record { num = distance; den = speed }
    else record { num = 4; den = 5 }

-- `measured` has the widths of the text and of its box, where both elements are there.
unfoldable pub measure : Option ℕ → Option (ℕ × ℕ) → Marquee → Marquee
measure px_per_sec none s = s
measure px_per_sec (some widths) s =
    let over = widths.0 - widths.1 in
    if ltb 1 over
    then record {
      shift = negsuc (over + 3);
      duration = slide_time (over + 4) (or_value 80 px_per_sec);
    }
    else record { shift = pos 0; duration = record { num = 0; den = 1 } }
