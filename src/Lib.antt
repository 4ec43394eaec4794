-- ===== src/Lib.antt =====
-- mmxisf reads and writes XISF files: an XML header that describes images, properties, ICC profiles
-- and thumbnails, and blocks of bytes that the header locates, which may be compressed,
-- byte-shuffled and checked by a digest.
--
-- A read goes through three parts of src/reader.cpp. `open_source` checks the preamble of the source,
-- parses the header into a `Document`, with the blocks that the header itself holds, and checks the
-- unused space. A read plan (`plan_image_read` and its siblings) checks one entry of the document
-- against the options and the size of the source. `read_image_into` and its siblings then copy the
-- block from the source, check it (`verify_checksum`), decode it (`decode_compressed_block`) and bring
-- it into the storage and byte order that the caller asked for. src/writer.cpp does the opposite: it
-- shuffles and compresses blocks, prints their descriptors and lays the file out.
--
-- Files, and what they model:
--   Base       lists, texts and Boolean tests; Base/Error: include/mmxisf/error.hpp, result.hpp
--   Word       checked_multiply, checked_add, is_power_of_two, align_up
--   Number     parse_unsigned of src/reader.cpp at 64 bits, std::to_string as src/writer.cpp uses it
--   Buffer     spans of bytes that are written in place
--   Document   include/mmxisf/document.hpp and ReaderOptions; Document/Names: to_string, ancillary_kind
--   Identifier is_valid_unique_id, is_valid_fits_keyword_name, is_valid_property_identifier
--   Value      trim_xml_whitespace and the checks of integer, floating-point and complex values
--   Time       is_valid_time_point_value of the reader; Writer/Time: is_canonical_utc_time
--   Property   src/property_types.hpp
--   Location   parse_geometry, parse_location
--   Block      Block/Parse: parse_checksum_plan, parse_compression_plan; Block/Decode: the decoders
--   Shuffle    shuffled_range of the writer, scatter_unshuffled_bytes of the reader
--   Pixels     transform_pixel_storage_from_buffer, swap_byte_order_in_place
--   Plan       plan_image_read, plan_thumbnail_read, plan_property_read, plan_icc_profile_read
--   Source     include/mmxisf/byte_source.hpp, read_exact
--   Inline     base64_value, append_inline_byte, decode_base64_quartet, decode_embedded_text
--   Read       the copies of serialized blocks; Read/Fetch: copy, verify and decode; Read/Metadata:
--              read_property_block, read_icc_profile; Read/Image: transform_pixel_storage,
--              read_image_into, read_image, read_thumbnail
--   Header     parse_header: the checks of the parsed state, the attached ranges, the document
--   Open       open_source, validate_unused_spaces
--   Writer     Writer/Checksum: checksum_name, compute_checksum; Writer/Text: is_valid_xml_utf8,
--              escape_xml
--   Tests      the theorems at concrete inputs
--
-- A byte is a number, a `std::string` or a span is a list of bytes, and a 64-bit word is a number
-- whose wrap-around is written out. A function that returns `Result<T>` returns `Result T`; one that
-- also writes through a span returns the span's bytes beside the result, on an error too. A stop
-- token answers each poll on its own, so a run may be cancelled at any poll. zlib, LZ4, Zstandard
-- and OpenSSL are the record `Codecs`, a parameter of the definitions that call them, and the
-- caller's `ByteSource` is a record of its operations, whose answer may differ from call to call.
--
-- Loops are structural recursion on a counter or on a list, or on fuel: the loops that read from a
-- source (`fill_loop`, `gap_loop`, `transform_chunks`) get the bytes or samples to read, of which each
-- round takes one at least, `utf8_loop` the length of its text, `decimal_onto` one more than the
-- number that it prints, and `log2_floor` the 64 bits of a word.
--
-- Not modelled: the handlers of the XML parser (expat is not part of the repository; the state that
-- its run leaves and the checks of tables and bindings are arguments of `parse_header`), files as
-- byte sources, the delivery of single rows (`read_image_rows`), the elements and the layout that the
-- writer prints, its compression, the viewer and the tools. An allocation does not fail, so the
-- `catch` clauses are left out. `std::size_t` has 64 bits. `sample_count / channels` with no channels
-- is undefined in the source and 0 here; the storage of embedded image blocks has an entry for every
-- image.
pub mod Base
pub mod Word
pub mod Buffer
pub mod Document
pub mod Pixels
pub mod Number
pub mod Shuffle
pub mod Property
pub mod Read
pub mod Block
pub mod Writer
pub mod Plan
pub mod Value
pub mod Source
pub mod Open
pub mod Inline
pub mod Tests
pub mod Location
pub mod Time
pub mod Header
pub mod Identifier
