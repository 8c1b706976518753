-- ===== src/Tests/Streams.antt =====
-- The properties of the sound streams at concrete answers of the decoder and of OpenAL.
use mgdf.Prelude.Int.{pos}
use mgdf.Audio.Streams.{
  System, Answers, plays, pauses, stops, updates, whole, try_create, buffer_size_of,
}
use mgdf.Audio.Streams.Decoder.{reorder_buffer}
use mgdf.Audio.Streams.Decoder.Channels.{reorder_buffer-openal_order, openal_order}
use mgdf.Audio.Streams.Takedown.{live, live-sources}
use mgdf.Audio.Streams.References.{try_create_failed-references}
use mgdf.Prelude.{ℕ, ◌≡◌, refl, true, false, some, List, [], ◌∷◌}

abbrev answers : Answers
answers = record {
  loading = whole;
  opens = true;
  decodes = true;
  info = some (8, 2);
  quad16 = 1;
  chn16_51 = 2;
  reads = 8 ∷ 8 ∷ 8 ∷ 8 ∷ 5 ∷ [];
}

abbrev system : System
system = record {
  library = record { references = pos 1; loaded = true; stray_call = false };
  sources = record { free = 7 ∷ []; allocated = [] };
}

live-sources_example :
    (live answers
      (plays answers ∷ updates 2 true ∷ stops ∷ plays answers ∷ pauses ∷ [])
      system).sources
    ≡ system.sources
live-sources_example =
    live-sources answers (plays answers ∷ updates 2 true ∷ stops ∷ plays answers ∷ pauses ∷ [])
      system

-- Two blocks of six channels.
abbrev samples : List ℕ
samples = 1 ∷ 2 ∷ 3 ∷ 4 ∷ 5 ∷ 6 ∷ 11 ∷ 12 ∷ 13 ∷ 14 ∷ 15 ∷ 16 ∷ []

reorder_buffer-openal_order_example :
    reorder_buffer (buffer_size_of 8 6) samples ≡ some (openal_order samples)
unfolding buffer_size_of
reorder_buffer-openal_order_example = reorder_buffer-openal_order 8 samples refl

abbrev refused : Answers
refused = record answers { opens = false }

try_create_failed-references_example :
    ((try_create refused system).0.library.references ≡ pos 0)
    × ((try_create refused system).0.library.loaded ≡ false)
unfolding try_create
try_create_failed-references_example = try_create_failed-references refused system 0 refl refl
