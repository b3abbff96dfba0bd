-- ===== src/Lib.antt =====
-- Model of fdx, a tool that reads, writes and converts floppy disk images: package mfm encodes sectors
-- to the half-bits of a track and finds them again, package hfe holds a disk as tracks of half-bits and
-- converts it from and to image files, packages kryoflux, greaseweazle and supercardpro speak the flux
-- formats of their devices.
--
-- How the parts interact: hfe/img.go finds the geometry of an image from its size (mfm/reader.go),
-- cuts the file into sectors, and has each track encoded by a writer (mfm/writer.go), with checksums
-- from mfm/crc16.go. To write an image it counts the sectors of the first track, collects the sectors
-- of every track with a reader (mfm/reader.go) into a map, and appends them in the order of their
-- numbers.
--
-- Files:
-- Prelude: names of the libraries passed on, tests, lists, words, integers, facts by evaluation.
-- Mfm/Crc16: mfm/crc16.go; crc16CCITT is crc16_ccitt. Serial and Residue are about it.
-- Mfm/Writer: the writer of mfm/writer.go, a record passed from operation to operation, and
--   encodeTrackIBMInternal. Cells keeps the invariant of the buffer, Emits, Tracks and Encode say
--   which half-bits each operation appends.
-- Mfm/Symbols: the independent description of a track: data bits, whose clock half-bit follows from
--   the bit before them, and bare half-bits. Track is the layout, Width its length.
-- Mfm/Reader: the reader of mfm/reader.go, a state passing function with the outcomes got (a value),
--   failed (end of bitstream) and stuck (out of fuel), scanIBMPC, ReadSectorIBMPC, CountSectorsIBMPC.
--   Bits, Scan, Parts, Sectors, Sequence and Count follow it over a track; Gaps, Quiet and Wash show
--   where the search for a mark can end.
--   Ends and Returns are about termination on any track.
-- Mfm/Amiga: the Amiga layout of mfm/writer.go and the Amiga readers of mfm/reader.go. Length and Ends
--   are about them.
-- Mfm/Format: DetectFormatFromSize; Geometry is about it.
-- Hfe/Disk: the records and constants of hfe/hfe.go.
-- Hfe/Collect: the loops of hfe/img.go, which hfe/bkd.go and hfe/adf.go repeat, that collect the
--   sectors of a track and write them in order. Map, Track, Encoded and Counted are about them.
-- Hfe/Img: ReadIMG and WriteIMG of hfe/img.go. Sectors, Slices, Save and Disks lead to RoundTrip;
--   Finish is about termination.
-- Hfe/Bkd: ReadBKD and WriteBKD of hfe/bkd.go, of one geometry and without index marks.
-- Hfe/Adf: ReadADF and WriteADF of hfe/adf.go; Full and Finish are about them.
-- Hfe/Imd: the records of hfe/imd.go, its mode and flag bytes. Read is ReadIMDFile, Convert
--   ConvertIMDToHFE and ReadIMD, Write WriteIMD. Modes, Flags, Sort and Sector are about their parts;
--   Shape and Returns about what a read has checked; Track, Found, Sides, Files and RoundTrip lead from
--   a disk to the image that is read back, and Refused to what becomes of it; Logical and Encoded are
--   about the order of the sectors in a converted track.
-- Hfe/Bits: the inverter table, bitReverse and bitCopy of hfe/hfe.go; Mirror is about the first two.
-- Hfe/Blocks: the track blocks of HFE files, writeRawTrack and writeEncodedTrack of hfe/write.go,
--   readTrack of hfe/read.go for version 1.
-- Hfe/File: the HFE file as a whole. Opcodes is encodeOpcodes of hfe/write.go and processOpcodes of
--   hfe/read.go, Header the header and the track list, Write is WriteHFE, Read is ReadHFE. Aligned and
--   Escapes are about the opcodes, List about the header and the list, Tracks and Kept about the
--   tracks, RoundTrip about the file.
-- Hfe/ImageFormat: hfe/imageformat.go, with Names about detection; Hfe/Dispatch: Read and Write.
-- Hfe/Verify: hfe/verify.go. Same, Different and Options are about the IBM PC comparison and
--   its choice.
-- Mfm/Flux: mfm/encoder.go, with Times about it; Mfm/Decoder: mfm/decoder.go over an interface of floats,
--   with Period about the clamped period. Exact and Phase follow it over flux without jitter.
-- Kryoflux: kryoflux/read.go. Stream is findEndOfStream and decodePulses, Flux decodeFlux and
--   decodeKryoFluxStream, Cells decodeFluxToMFM and calculateRPMAndBitRate. Blocks is a stream apart
--   from the code; Pulses, Transitions and Order are about what is decoded, Packed and Speeds about
--   Cells, and Decoded and Restored about decodeFluxToMFM of the flux that package mfm generates.
-- Greaseweazle: encodeFluxStream of greaseweazle/write.go and the stream loop of decodeFluxToMFM of
--   greaseweazle/read.go (Stream); N28 and Intervals are about what is read back. Rates is
--   calculateRPMAndBitRate and the rest of decodeFluxToMFM, Counted is about the first.
-- Supercardpro: the samples of supercardpro/write.go and the decoding of supercardpro/read.go (Flux);
--   Actions is a state and error monad, Client the commands of supercardpro/supercardpro.go and
--   readFlux over a serial port, Transfer is Read, Write and Erase. Holds is a logic of conditions on
--   answers. Session describes a run of Write from state to state, and Verified shows that it is
--   one; Refused and Intervals are about Read and the samples.
-- Examples: the results at small inputs.
--
-- Fuel: a loop that reads a track has one round for every half-bit that is left and one more
-- (fuel_for); each round but the last reads a half-bit at least. Bytes are numbers below 256, written
-- out as hypotheses where a result depends on it; casts and shifts keep their remainder.
-- CoverFullRotation has a round for every nanosecond of the rotation, and each but the last takes one
-- or more; the base byte of a Greaseweazle interval counts five ranges, and has five rounds.
-- decodeFluxToMFM takes two half-bits in a round; its fuel is an argument, and where the flux is
-- generated, half the half-bits and one are enough.
--
-- Not modelled: the serial and USB traffic of packages kryoflux and greaseweazle, the connection and
-- the status reports of the drivers, the command line and the configuration, which are input and
-- output over other libraries. A serial port is a parameter of the SuperCard Pro client. Float
-- products are parameters, or operations of an interface. The operating system is taken to open,
-- create, read and write files without error, and to return whole sectors from a read.
pub mod Examples
pub mod Greaseweazle
pub mod Hfe
pub mod Kryoflux
pub mod Mfm
pub mod Prelude
pub mod Supercardpro
