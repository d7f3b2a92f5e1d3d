-- ===== src/Lib.antt =====
-- Kurento media server, kms-core: the logic of the elements' common library, src/gst-plugins/commons,
-- and the bookkeeping of the server, src/server/implementation.
--
-- How the parts interact. An endpoint negotiates its media with the SDP agent: the handlers that the
-- application has added become the m-lines of an offer, a payload manager gives each codec its
-- payload type, and a state machine orders offers, answers and descriptions. Once media flow, the RTP
-- synchronizer puts the buffers of the tracks on one time line with the help of the sender reports.
-- The receiving side estimates a bitrate from losses and sends it in a REMB message; the sending side
-- parses the message and passes the estimate up, where the event manager keeps the least of all.
-- Above the elements, the server's media set knows which client session holds which objects, and the
-- media elements of a pipeline know their connections.
--
-- Which file models which part, by the repository's path (below src/gst-plugins/commons if not said
-- otherwise):
-- - Rtcp: kmsrtcp.c and kmsrtcp.h. Bytes are numbers below 256 in a list; an access out of bounds
--   and a shift that C leaves undefined are none. Rtcp/Mantissa, Words and RoundTrip lead to the round
--   trip, Rtcp/Safety to the parser's bounds.
-- - RembEventManager: the REMB event manager in kmsutils.c (kms_utils_remb_event_manager_*,
--   remb_event_manager_*, remb_probe). The hash table is the list of its entries in the order in which
--   the code goes over them.
-- - Remb: kmsremb.c and kmsremb.h. Remb and Remb/Sending hold the local side (kms_remb_local_*),
--   Remb/Remote the remote one (kms_remb_remote_*, process_psfb_afb). Remb/Exchange joins the two
--   and Rtcp.
-- - SdpPayloadManager: sdpagent/kmssdppayloadmanager.c. The array of 128 codecs is a list.
-- - RtpSynchronizer: kmsrtpsynchronizer.c. guint64 sums wrap, written out as % 2 ^ 64.
-- - SdpAgent: sdpagent/kmssdpagent.c. SdpAgent holds the state and the merge of the handlers,
--   SdpAgent/Operations and Offers the calls, SdpAgent/Answering how an answer gets its handlers,
--   SdpAgent/Steps and Transitions the state machine, SdpAgent/Invariant and Offering what holds
--   between calls, SdpAgent/Completing how an offer comes to its answer.
-- - SdpSession: kmssdpsession.c, with the agent that it drives. SdpSession/Offering and Exchange lead two
--   sessions from an offer to an agreement.
-- - SdpGroupManager: sdpagent/kmssdpgroupmanager.c, with kmssdpbasegroup.c and kmssdpmidext.c. The
--   module holds the calls and signals, SdpGroupManager/Attributes the group attributes; Assigning and
--   Offering give mids, Holding, Mids, Members, Consistency, Grouping and Reaching lead to what holds
--   after any calls, Listing and Answering to the group of an answer.
-- - SdpUtils: sdp_utils.c, the attributes of an answer. Texts are strings; g_ascii_strcasecmp is a
--   parameter, with what its callers rely on as hypotheses. Attributes treats one attribute,
--   Answering a media's list.
-- - Depayloader: the depayloaders' times in kmsutils.c (kms_utils_depayloader_adjust_pts_out).
-- - KmsList: kmslist.c, with the nodes that a removal frees as a second result.
-- - MediaSet: src/server/implementation/MediaSet.cpp and MediaSet.hpp. Ids are numbers. MediaSet and
--   MediaSet/Objects hold the calls; Tree, Leaving and Unref lead to the removal of an object and all
--   below it, Sessions, Releasing and Collecting to the end of sessions and objects, Referring,
--   Sharing and Creating to how sessions come to hold objects, Calls and Reaching to all orders of
--   calls.
-- - MediaElement: src/server/implementation/objects/MediaElementImpl.cpp and .hpp, the members sinks
--   and sources of all elements. Links has the lists, Disconnecting, Clearing, Linking and Connecting
--   what disconnect, disconnectAll and connect do.
-- - Prelude holds what the parts share, Tests the runs at concrete inputs.
--
-- State is passed explicitly and every operation that holds the object's mutex is one step. A result
-- that is none is one where the code would fault, fail an assertion or do what C leaves undefined.
--
-- Bounds and fuel. find_exponent runs as far as 64 exponents, which is all that six bits hold, and
-- stops with none where the code would shift by 32. The loop of assign_mid runs one round more than
-- there are mids in use, which is shown to be enough. get_dynamic_pt_from_list runs 129 rounds for a
-- list of 128 payload types, and the theorem on sharing shows that they are enough. The merge of an
-- offer's handlers runs one round more than the old offer has m-lines, which is shown to be enough.
-- The ids of media handlers wrap at 32 bits, and from 2 ^ 31 on they are negative as gints; where a
-- theorem needs smaller ids, it says so. The calls of MediaSet follow parents and children on fuel,
-- and one more than the depth of the tree is shown to be enough. The loops of disconnectAll take two
-- rounds.
--
-- Parameters, for code that is not in the repository: what GStreamer answers when an event is pushed
-- or an FCI is made longer, the values of the clock, the properties of an RTP source,
-- g_ascii_strtoull, the bytes that stood on the stack in a packet that was never set, the single-
-- precision arithmetic of the estimate, gst_util_uint64_scale, g_ascii_strcasecmp, g_strsplit, the
-- text of a mid, whether a media handler takes an extension, which ids begin with "newref:", which
-- weak pointers can be locked, and whether an element gives a pad.
--
-- Not modelled: the text of offers and answers, the callbacks of the SDP agent and the extensions of
-- media but the one for mids, the media handlers, the elements that link GStreamer pads, the
-- statistics of the elements, the rest of the C++ server, GObject life, logging and the stats file
-- of the synchronizer.
pub mod Prelude
pub mod KmsList
pub mod MediaSet
pub mod MediaElement
pub mod SdpUtils
pub mod Depayloader
pub mod SdpSession
pub mod SdpGroupManager
pub mod Rtcp
pub mod RembEventManager
pub mod Remb
pub mod SdpAgent
pub mod SdpPayloadManager
pub mod RtpSynchronizer
pub mod Tests
