-- ===== src/Lib.antt =====
-- The scanners of DIST-LFSCK, which read the extended attributes of a Lustre file system off the
-- disks of its servers and build a graph of them in a Neo4j database.
--
-- The program. `intergrate/new_scan_code/mds_src.c` scans the disk of a metadata server and
-- `ost_src.c` the disk of an object server. Each opens its device, checks the superblock, takes
-- the inode table from the first group descriptor, and goes through the table. An inode with
-- attributes becomes a node; its type, its own FID, its parent's FID and its first object become
-- properties; statements with `merge` relate the nodes whose FIDs are equal.
-- `xattr_sk.h` and `ext4_checker.h` declare the structures on the disk. The older scanners,
-- `mds_final.c` and `oss_final.c` under `intergrate/integrate apr 2021/scanning codes +
-- libraries/`, go through the group's bitmaps and print the inodes and attributes, as the first
-- one, `ext4_checker/ext4_checker.c`, does for all inodes of its first group.
--
-- The files, and the code they are about:
--   Prelude           the library's names, operators and lemmas that all files share
--   Disk              open, lseek, read, and the loads of little-endian fields
--   Flow              how a piece of `main` ends: it goes on, exits, or loops without an end
--   Xattr             struct ext4_xattr_entry, IS_LAST_ENTRY, EXT4_XATTR_LEN, EXT4_XATTR_NEXT and
--                     the loop over the entries; Walk: when it ends; Encode: what it reads back;
--                     Names: the tests on a name
--   Lustre            the structures of xattr_sk.h inside the values; ByteOrder: fid_be_to_cpu;
--                     Written: the LMA and the filter FID as bytes
--   Text, Cypher      sprintf and the statements; FidText, Reading: a FID and a statement read back
--                     from their texts; Bounds: lengths
--   Report            the lines printed and the statements sent
--   Scan              what both scanners share: Start (the superblock and the descriptor),
--                     Location (where an inode is read), Rounds (the loop over the inodes),
--                     Directory (the listing of a directory), Written and Found (inodes as
--                     they are written, and as they are read), Formatted (the superblock and the
--                     descriptor as they are written), Bytes, Adds and Sends (lemmas)
--   Mds               `main` of mds_src.c; Statements, Inodes, Mismatch: what it sends; Link,
--                     Lov, Attrs: of whole attributes; Described: of whole disks;
--                     Buffer: the statement buffer; Main: from the superblock on
--   Ost               `main` of ost_src.c, with the same parts but Mismatch and Lov
--   Graph             the database that runs the statements, as a parameter with its documented
--                     behaviour; Laws, Order, Writes: any list of statements; Fids: the graph with
--                     FIDs in place of texts; Refines: databases against it; Described: the same
--                     for disks as they are written; Attributes, MdsSources, OstSources: where the
--                     properties come from; MdsEdges, MdsOwn, OstEdges, OneEach, Scans, Complete:
--                     the relations after both scans, against the two disks; Relates, Late: parents
--                     that are scanned after the last link EA
--   Bitmap            the loops over the bits of a bitmap; Used: the set bits they visit
--   Older             what mds_final.c and oss_final.c share; MdsFinal, OssFinal: their `main`;
--                     Counts, Visits: the bitmaps and the scan; Entries: the names of an inode's
--                     attributes; Location: where an inode is read; EarlyFinal: the mds_final.c
--                     under `intergrate/scanning codes + libraries/`
--   Checker           `main` of ext4_checker.c; Entries, Quiet, Areas: the attributes that it
--                     prints; Parts: those of an inode; Index: the index that it keeps across
--                     inodes; Within, Bounds: its counts
--   Client            the two neoclient.c; Ties: the database that counts relations, as a
--                     parameter; Once, Later, Earlier: how often two nodes are related
--   Demo              comb.c and combine_oss.c under neo4j/; Seed: their files together
--   Reader            graph_relationships.c under neo4j/; Chunks, Lines: what fgets takes; Ends: on
--                     any file; Rows, Made: on the file of the two programs before
--   Lsfsck            lsfsck.c; Early: where it reads
--   Layout            the structures as field lists; Values: those inside the attribute values;
--                     Agree: the offsets of the loads
--   Tests             runs on small devices, and the theorems at concrete inputs
--
-- The model. Memory and the device are functions from offsets to bytes, and a buffer is seen from
-- its first byte, so that the attributes that are read behind a `struct ext4_inode` stay at the
-- offsets where the code looks for them. A short read keeps the old bytes, as `read` does. What
-- uninitialised memory holds is a parameter (`Uninit`). A loop of the code that has no bound of its
-- own takes `fuel`, the tests granted to it, and gives `spins` when they are used up; the theorems
-- on termination say how many are enough. Unsigned and int arithmetic keeps its 32 bits where the
-- code has it. `%x` of a 64-bit argument takes its low 32 bits, as on x86-64. A printed line is its
-- format string with the values; a `%s` is kept as the place where the text starts. The state
-- `Scan` holds the counts of both scanners: `entry_count` is `xattr_count` in ost_src.c. The
-- database is outside: whether it accepts the connection is a parameter, and its results, which the
-- code does not look at, do not come back. What it does with the texts of the statements is another
-- parameter, a `GraphStore`; `IsLawful` states what the Cypher manual says of the CREATE, SET and
-- MATCH ... MERGE that the scanners send. Nodes of one label and one inode number are not told
-- apart, since no statement of the scanners tells them apart. The graph of FIDs, which reads the
-- texts back, is a `GraphStore` with these laws. The scan of the metadata server runs first, as the
-- LOV relations of the other one ask for. `static unsigned int block_size` is a field of `Volume`,
-- since it is set once. In mds_src.c an array of `e_value_size + 1` bytes is made on the stack;
-- `stack` is the room for it, and where it is too small the scan exits with the status of a
-- segmentation fault. In the older scanners `host.fuel` is granted to each loop over entries.
-- `return -EIO` is the status 251. A shift of `1024` by 32 or more, which C leaves undefined, gives
-- the remainder modulo 2 ^ 32.
--
-- In the programs under neo4j/, `rand` behind `srand(100)` is a parameter: a sequence that is the
-- same for both, since they give the same seed. graph_relationships.c reads a text; its loop is
-- granted one test more than the text has characters, each of which takes one at least. A word that
-- does not fit its buffer ends the run there, since the memory behind it is not modelled.
--
-- In ext4_checker.c all loops are bounded, so no fuel is needed; `(int)pow(2, ...)` is the power
-- itself, which it is below 2 ^ 31, and the indices are not wrapped, since 32768 inodes cannot take
-- them to 2 ^ 31.
--
-- The clients' `main` is its list of statements, over a `Plan` that holds the values of its nodes.
-- Their database, a `TieStore`, finds nodes by their inode numbers and counts relations, since
-- CREATE, unlike MERGE, adds a relation that is there already.
--
-- lsfsck.c and its copies ext4/lsfsck4.c and ext4/demoext4group.c take their structures from the
-- system's headers, which are a parameter, `Headers`. Its pointer test_inode is never set: where it
-- points is a parameter too, and what it may overwrite there is not modelled.
--
-- Memory is total: bytes behind a buffer are whatever the parameter holds, and a read behind the end
-- of what is mapped, which would be a fault, gives some byte. A loop that runs off a buffer is seen by the offsets it visits.
-- The arrays of values in mds_final.c, oss_final.c and ext4_checker.c are taken to fit the stack;
-- no result says that these programs end on any disk. A total of 2 ^ 31 - 1 inodes, with which `i`
-- overflows in mds_src.c and ost_src.c, counts as that many rounds.
--
-- Not modelled: the copies of the kernel's ext4 and of ldiskfs, and dumpe2fs.c (from e2fsprogs).
-- neo4j_pseudo.c is pseudo-code.
pub mod Bitmap
pub mod Checker
pub mod Client
pub mod Cypher
pub mod Demo
pub mod Disk
pub mod Flow
pub mod Graph
pub mod Layout
pub mod Lsfsck
pub mod Lustre
pub mod Mds
pub mod Older
pub mod Ost
pub mod Prelude
pub mod Reader
pub mod Report
pub mod Scan
pub mod Tests
pub mod Text
pub mod Xattr
