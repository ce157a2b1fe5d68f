-- ===== src/Pages/Voice.antt =====
-- `admin/src/pages/Voice.tsx`: the tiles and the charts of the voice of the customers, for the cases `cs`
-- that pass the filters. Averages are exact quotients, rounded to tenths and to hundredths.
pub mod Counts
use wachen.Base.{
  ℕ, ◌+◌, ◌*◌, Bool, false, List, [], ◌∷◌, map, none, some, or_else, Text, utf16, String, text_Eq,
  nat_eq, ◌==◌, if◌then◌else◌, ltb, cnt, take, length, sum, get, put, replicate,
}
use wachen.Base.Rounding.{round_div}
use wachen.Domain.{Sentiment, positive, neutral, negative, sentiment_Eq, sent_label}
use wachen.Case.{WaCase}
use wachen.Stats.{Stats, scoped_stats, star_counts, Month}
use wachen.Charts.{
  pct, or_one, BarRow, Bar, bar_chart, DonutView, donut, CloudWord, kw_cloud, LineView, LineSeries,
  line_chart,
}

-- SENT_COLOR
abbrev pub sent_color : Sentiment → String
sent_color negative = "var(--critical)"
sent_color neutral = "var(--muted)"
sent_color positive = "var(--good)"

abbrev pub star_row : List (ℕ × ℕ) → ℕ × String → BarRow
star_row star e = record {
  n = replicate e.0 0x2605;
  v = or_else (get e.0 star) 0;
  color = some e.1;
}

abbrev pub star_colors : List (ℕ × String)
star_colors =
    (5, "var(--seq5)")
    ∷ (4, "var(--seq4)")
    ∷ (3, "var(--seq3)")
    ∷ (2, "var(--seq2)")
    ∷ (1, "var(--seq1)")
    ∷ []

-- starRows
unfoldable pub star_rows : List WaCase → List BarRow
unfolding star_counts
star_rows cs = map (star_row (star_counts cs)) star_colors

-- `{ sum, n }` of a brand
pub record Ratings : Type 0 where
  pub sum : ℕ
  pub n : ℕ

abbrev pub no_ratings : Ratings
no_ratings = record { sum = 0; n = 0 }

-- The loop that fills `byBrand`.
unfoldable pub by_brand : List (Text × Ratings) → List WaCase → List (Text × Ratings)
by_brand m [] = m
by_brand m (c ∷ cs) =
    let e = or_else (get c.brand m) no_ratings in
    by_brand (put c.brand (record { sum = e.sum + c.rating; n = e.n + 1 }) m) cs

-- A row of the brands; its number is in tenths.
abbrev pub brand_row : Text × Ratings → BarRow
brand_row e = record {
  n = if ltb 6 (length e.0) then take 6 e.0 else e.0;
  v = round_div (e.1.sum * 10) e.1.n;
  color = some "var(--s2)";
}

-- brandVoice
unfoldable pub brand_voice : List WaCase → List BarRow
unfolding by_brand
brand_voice cs = map brand_row (by_brand [] cs)

abbrev pub of_sentiment : Sentiment → List WaCase → ℕ
of_sentiment k cs = cnt (λ c. c.sentiment == k) cs

-- sentRows
unfoldable pub sent_rows : List WaCase → List BarRow
sent_rows cs =
    map
      (λ k. record { n = utf16 (sent_label k); v = of_sentiment k cs; color = some (sent_color k) })
      (positive ∷ neutral ∷ negative ∷ [])

-- A tile: its number, and its share of the cases in percent.
pub record Tile : Type 0 where
  pub v : ℕ
  pub percent : ℕ

unfoldable pub tile : Sentiment → List WaCase → Tile
unfolding pct
tile k cs = record { v = of_sentiment k cs; percent = pct (of_sentiment k cs) (length cs) }

-- `(sum / (cs.length || 1)).toFixed(2)`, in hundredths
unfoldable pub average : List WaCase → ℕ
average cs = round_div (sum (λ c. c.rating) cs * 100) (or_one (length cs))

pub record VoiceView : Type 0 where
  pub positive : Tile
  pub neutral : Tile
  pub negative : Tile
  pub average : ℕ
  pub trend : LineView
  pub stars : List Bar
  pub sentiments : DonutView
  pub brands : List BarRow
  pub words_of_praise : List CloudWord
  pub complaints : List CloudWord

abbrev month_label : Text × Month → Text
month_label m = drop_two m.0
  where
    drop_two : Text → Text
    drop_two (a ∷ b ∷ s) = s
    drop_two _ = []

-- Voice
unfoldable pub voice : (Text → Text → Bool) → List WaCase → VoiceView
unfolding scoped_stats star_rows brand_voice sent_rows tile average bar_chart donut kw_cloud
    line_chart
voice precedes cs =
    let stats = scoped_stats precedes cs in
    record {
      positive = tile Sentiment.positive cs;
      neutral = tile Sentiment.neutral cs;
      negative = tile Sentiment.negative cs;
      average = average cs;
      trend =
          line_chart
            (record {
              label = utf16 "評論量";
              color = "var(--s1)";
              data_points = map (λ m. m.1.reviews) stats.months;
            }
              ∷ record {
                label = utf16 "負評量";
                color = "var(--critical)";
                data_points = map (λ m. m.1.neg) stats.months;
              }
              ∷ [])
            (map month_label stats.months) 180;
      stars = bar_chart (star_rows cs) none none false;
      sentiments = donut (sent_rows cs) (length cs) (utf16 "則評論");
      brands = brand_voice cs;
      words_of_praise = kw_cloud stats.kw_pos;
      complaints = kw_cloud stats.kw_neg;
    }
