-- ===== src/Tests.antt =====
-- Each theorem at a concrete input where its hypotheses hold, one module per component.
mod Rtcp
mod RembEventManager
mod Depayloader
mod KmsList
mod MediaElement
mod MediaSet
mod SdpUtils
mod Remb
mod SdpAgent
mod SdpSession
mod SdpGroupManager
mod SdpPayloadManager
mod RtpSynchronizer
