-- ===== src/NativePull/RoundTrip.antt =====
-- Decoding gives back what was encoded.
use spool_rack.Prelude.{bytes_eq, nat_eq}
use spool_rack.NativePull.Format.{NativePackSource, DecodedNativePack, PackContract}

module _ (g : PackContract) where
  -- What a receiver gets of a source.
  abbrev pub decoded_of : NativePackSource g.Manifest g.Entry → DecodedNativePack g.Manifest g.Entry
  decoded_of src = record {
    pack_id = src.pack_id;
    commit_id = src.commit_id;
    manifest = src.manifest;
    entries = src.entries;
    pack_data = src.pack_data;
  }
